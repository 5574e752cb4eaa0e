-- ===== src/Stats/Status.antt =====
-- src/server.rs: `ServerStatus` and `get_status`; src/eva_svc.rs: `handle_call`.
use psrt.Prelude.{ℕ, ◌/◌, Bool, false, Option, if◌then◌else◌}
use psrt.Prelude.Bytes.{Bytes, codes, is_empty, beq}
use psrt.Stats.{Counters}
use psrt.PubSub.Submap.{SubMap}
use psrt.PubSub.Db.{ClientDb, get_stats}

-- `ServerClientDBStats`.
pub record ServerClientDbStats : Type 0 where
  pub subscription_count : ℕ
  pub client_count : ℕ

-- `cluster` is what `replication::status` gives, `none` without the feature.
pub record ServerStatus (Cluster : Type 0) : Type 0 where
  pub time : ℕ
  pub uptime : ℕ
  pub data_queue_size : ℕ
  pub host : Bytes
  pub version : Bytes
  pub counters : Counters
  pub clients : ServerClientDbStats
  pub cluster : Option Cluster

-- What the server's parts and the machine tell at the time of a request; times in nanoseconds.
pub record Observed (Map Cluster : Type 0) : Type 0 where
  pub now_ns : ℕ
  pub uptime_ns : ℕ
  pub queue_size : ℕ
  pub host_name : Bytes
  pub version : Bytes
  pub counters : Counters
  pub db : ClientDb Map
  pub cluster : Option Cluster

-- What a method call of the bus returns: a packed value, an error of the parameters, or what other
-- code decides.
pub data RpcResult (A : Type 0) : Type 0 where
  packed : Bytes → RpcResult A
  params_error : RpcResult A
  failed : A → RpcResult A

-- The crate `eva-sdk`: the serializer, and the handler of all other methods.
pub record Sdk (Cluster A : Type 0) : Type 0 where
  pub pack_counters : Counters → RpcResult A
  pub pack_clients : ServerClientDbStats → RpcResult A
  pub pack_cluster : Option Cluster → RpcResult A
  pub svc_handle_default_rpc : Bytes → RpcResult A

unfoldable pub client_stats : {Map : Type 0} → SubMap Map → ClientDb Map → ServerClientDbStats
client_stats S db =
    let (subscriptions, clients) = get_stats S db in
    record { subscription_count = subscriptions; client_count = clients }

abbrev without_payload : {A : Type 0} → Bytes → RpcResult A → RpcResult A
without_payload payload result = if is_empty payload then result else params_error

module _ {Map Cluster : Type 0} (S : SubMap Map) where
  unfoldable pub get_status : Observed Map Cluster → ServerStatus Cluster
  unfolding client_stats
  get_status o = record {
    time = o.now_ns / 1000;
    uptime = o.uptime_ns / 1000000000;
    data_queue_size = o.queue_size;
    host = o.host_name;
    version = o.version;
    counters = o.counters;
    clients = client_stats S o.db;
    cluster = o.cluster;
  }

  -- `handle_call`, for a method whose name was parsed; `cluster` is the feature.
  unfoldable pub handle_call :
      {A : Type 0} → Sdk Cluster A → Bool → Observed Map Cluster → Bytes → Bytes → RpcResult A
  unfolding client_stats beq
  handle_call sdk cluster o method payload =
      if beq method (codes "stats.counters")
      then without_payload payload (sdk.pack_counters o.counters)
      else if beq method (codes "stats.clients")
      then without_payload payload (sdk.pack_clients (client_stats S o.db))
      else if (if cluster then beq method (codes "stats.cluster") else false)
      then without_payload payload (sdk.pack_cluster o.cluster)
      else sdk.svc_handle_default_rpc method
