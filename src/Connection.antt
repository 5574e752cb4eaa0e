-- ===== src/Connection.antt =====
-- src/server.rs: the connections of stream sockets, from the greeting to the release of the client.
pub mod Serving
pub mod Sending
pub mod Release
pub mod Entry
pub mod Greeting
pub mod Launching
pub mod Sound
pub mod Live
pub mod Keeping
use psrt.Prelude.{
  ℕ, Bool, true, false, ◌&&◌, Option, none, some, List, [], ◌∷◌, ◌++◌, ◌==◌, if◌then◌else◌, take,
  drop,
}
use psrt.Prelude.Bytes.{Bytes, is_empty, beq}
use psrt.Prelude.Split.{splitn2}
use psrt.Prelude.Words.{le16}
use psrt.Wire.{
  control_header, data_header, protocol_version, comm_insecure, comm_tls, response_ok, response_err,
}
use psrt.Fault.{
  Error, Result, ok, err, ok_or, error_io, error_access, error_invalid_data, text, shown, decimal,
  from_utf8,
}
use psrt.Exec.{Exec, pure, raise, lift, gets, change, ◌>>=◌, ◌>>◌}
use psrt.Comm.{Stream, reduce_timeout, read, read_with_timeout, read_frame, write}
use psrt.Acl.{Acl, get_acl, new_full}
use psrt.PubSub.Submap.{ServerClient, SubMap}
use psrt.PubSub.Store.{Channel, update}
use psrt.PubSub.Db.{
  ClientDb, data_of, new_channel, abort_tasks, register_task, register_data_channel,
  register_client, unregister_client,
}
use psrt.Keys.{Crypto, verify}
use psrt.Server.{Settings, Session, on_stream, on_db}
use psrt.Control.{Control, invalid_block, respond, process_control, first_byte}
use psrt.Guards.{Guards, user_of, format_login}

pub data StreamType : Type 0 where
  control_stream data_stream : StreamType

-- The type that the greeting's first two bytes ask for.
unfoldable pub stream_type : Bytes → Result StreamType
unfolding beq
stream_type header =
    if beq header control_header
    then ok control_stream
    else if beq header data_header
    then ok data_stream
    else err (error_io (text "Invalid greeting header: " ∷ shown header ∷ []))

-- What TLS does with an accepted socket; `none` if it is not configured.
abbrev pub Acceptor : Type 0
Acceptor = Option (Exec Stream (Unit {0}))

abbrev pub max_auth_frame_size : ℕ
max_auth_frame_size = 1024

-- What a connection turned out to be.
pub data Opened : Type 0 where
  launched : Opened
  serving : ServerClient → Acl → Opened

-- The third byte of the greeting.
abbrev pub comm_mode : Bytes → ℕ
comm_mode greeting = first_byte (drop 2 greeting)

-- `sp.next()` behind the first zero byte.
abbrev pub second_part : Option Bytes → Result Bytes
second_part none = err invalid_block
second_part (some part) = from_utf8 part

module _ {Map : Type 0} where
  -- `SStream::new`, and the answer to the greeting.
  unfoldable pub start_stream : ℕ → Bytes → Exec (Session Map) (Unit {0})
  start_stream timeout greeting = do
    change (λ s. (tt {0}, record s { stream = record s.stream { timeout = timeout } }))
    on_stream (write (take 2 greeting ++ le16 protocol_version))

  unfoldable pub init_unix_stream : ℕ → Exec (Session Map) StreamType
  unfolding start_stream stream_type
  init_unix_stream timeout = do
    greeting ← on_stream (read_with_timeout 3 timeout)
    st ← lift (stream_type (take 2 greeting))
    start_stream timeout greeting
    pure st

  abbrev pub accept_tls : Acceptor → Exec (Session Map) (Unit {0})
  accept_tls none = raise (error_io (text "TLS is not configured" ∷ []))
  accept_tls (some accept) = on_stream accept

  unfoldable pub choose_mode : Acceptor → Bool → ℕ → Exec (Session Map) (Unit {0})
  choose_mode acceptor allow_no_tls mode =
      if mode == comm_insecure
      then (if allow_no_tls
          then pure tt
          else raise (error_io (text "Communication without TLS is forbidden" ∷ [])))
      else if mode == comm_tls
      then accept_tls acceptor
      else raise (error_io (text "Invalid comm mode requested: " ∷ decimal mode ∷ []))

  unfoldable pub init_tcp_stream : ℕ → Acceptor → Bool → Exec (Session Map) StreamType
  unfolding start_stream stream_type choose_mode
  init_tcp_stream timeout acceptor allow_no_tls = do
    greeting ← on_stream (read_with_timeout 3 timeout)
    st ← lift (stream_type (take 2 greeting))
    choose_mode acceptor allow_no_tls (comm_mode greeting)
    start_stream timeout greeting
    pure st

  -- The receiver of a channel is dropped.
  abbrev pub close_channel : ℕ → Session Map → Session Map
  close_channel ch s = record s {
    db = record s.db {
      channels = update s.db.channels ch (record (s.db.channels ch) { is_open = false });
    };
  }

  -- `respond_ok!` with the receiver at hand, which an error drops.
  abbrev pub or_closed : ℕ → Result (Unit {0}) × Session Map → Result (Unit {0}) × Session Map
  or_closed ch (ok u, s) = (ok u, s)
  or_closed ch (err e, s) = (err e, close_channel ch s)

  abbrev pub announce : ℕ → Exec (Session Map) (Unit {0})
  announce ch s = or_closed ch (respond response_ok s)

  -- What follows `register_data_channel`; `pinger` and `sender` are the tasks that were spawned.
  unfoldable pub launch_registered :
      ℕ → ℕ → ℕ → Result (ℕ × ServerClient) → Exec (Session Map) (Unit {0})
  launch_registered ch pinger sender (err e) = do
    change (λ s. (tt {0}, close_channel ch s))
    respond response_err
    raise e
  launch_registered ch pinger sender (ok (channel, client)) = do
    announce ch
    change (λ s. (tt {0}, record s { db = register_task client pinger s.db }))
    change (λ s. (tt {0}, record s { db = register_task client sender s.db }))

  -- The byte behind the token is the client's timeout, for the beacons.
  unfoldable pub launch_data_stream : Settings → ℕ → ℕ → ℕ → Exec (Session Map) (Unit {0})
  unfolding launch_registered
  launch_data_stream cfg timeout pinger sender = do
    op_start ← gets (λ s. s.stream.now)
    token ← on_stream (read 32)
    wait ← gets (λ s. reduce_timeout timeout op_start s.stream.now)
    on_stream (read_with_timeout 1 wait)
    ch ← change (λ s. let r = new_channel cfg.data_queue_size s.db in (r.0, record s { db = r.1 }))
    res ← change (λ s. let r = register_data_channel token ch s.db in (r.0, record s { db = r.1 }))
    launch_registered ch pinger sender res
