-- ===== src/Server.antt =====
-- src/server.rs: what the connections of the server share, and the settings that it starts with.
use psrt.Prelude.{ℕ, ◌+◌, Bool, List}
use psrt.Prelude.Bytes.{Bytes}
use psrt.Fault.{Result}
use psrt.Exec.{Exec}
use psrt.Stats.{Counters}
use psrt.Comm.{Stream}
use psrt.PubSub.Db.{ClientDb}

-- The static limits, and whether the feature `cluster` is compiled in.
pub record Settings : Type 0 where
  pub allow_anonymous : Bool
  pub max_pub_size : ℕ
  pub max_topic_length : ℕ
  pub max_topic_depth : ℕ
  pub data_queue_size : ℕ
  pub latency_warn : ℕ
  pub cluster : Bool

-- A call of `replication::push`, which is not part of the repository.
pub record Replicated : Type 0 where
  pub priority : ℕ
  pub topic : Bytes
  pub message : Bytes
  pub timestamp : ℕ

-- The client database, the counters and the replication calls, with the stream of the connection
-- that runs. `epoch` is the real time at which the stream's clock stood at zero.
pub record Session (Map : Type 0) : Type 0 where
  pub stream : Stream
  pub db : ClientDb Map
  pub counters : Counters
  pub replicated : List Replicated
  pub epoch : ℕ

module _ {Map A : Type 0} where
  -- An action on the stream, or on the database.
  unfoldable pub on_stream : Exec Stream A → Exec (Session Map) A
  on_stream m s = let r = m s.stream in (r.0, record s { stream = r.1 })

  unfoldable pub on_db : (ClientDb Map → Result A × ClientDb Map) → Exec (Session Map) A
  on_db m s = let r = m s.db in (r.0, record s { db = r.1 })

-- `now_ns`.
abbrev pub now_ns : {Map : Type 0} → Session Map → ℕ
now_ns s = s.epoch + s.stream.now
