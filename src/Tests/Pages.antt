-- ===== src/Tests/Pages.antt =====
-- Requests for the status.
use psrt.Prelude.{◌≡◌, ◌↔◌, refl, false, none, some, [], ◌∷◌, ◌++◌}
use psrt.Prelude.Bytes.{codes}
use psrt.Fault.{ok}
use psrt.Stats.Status.{Observed, packed, params_error, failed, Sdk, handle_call}
use psrt.Stats.Http.{get_method, Request, Web, status_ok, handler, credentials}
use psrt.Stats.Access.{IsPage, MayAsk, handler_ok_iff}
use psrt.Tests.ListedMap.{ListedMap, listed_map}
use psrt.Tests.Database.{subscribed_db}
use psrt.Tests.Packets.{plain_crypto, guards}

-- A header is its own text, and what is decoded is the text itself.
abbrev web : Web
web = record { to_str = some; decode = ok; show_utf8_error = λ v. v }

abbrev now : Observed ListedMap (Unit {0})
now = record {
  now_ns = 5000000000;
  uptime_ns = 3000000000;
  queue_size = 8;
  host_name = codes "node";
  version = codes "1";
  counters = record {
    c_sub_ops = 0;
    c_pub_messages = 0;
    c_pub_bytes = 0;
    c_sent_messages = 0;
    c_sent_bytes = 0;
    c_sent_latency = 0;
  };
  db = subscribed_db;
  cluster = none;
}

abbrev asked : Request
asked = record {
  method = get_method;
  path = codes "/status";
  authorization = some (codes "BASIC" ++ 32 ∷ codes "ann:pw");
}

handler_ok_iff_example :
    ((handler listed_map web plain_crypto guards asked now).status ≡ status_ok) ↔ (
      (asked.method ≡ get_method)
      × IsPage asked.path
      × MayAsk plain_crypto guards (credentials web asked.authorization))
handler_ok_iff_example = handler_ok_iff listed_map web plain_crypto guards asked now

abbrev sdk : Sdk (Unit {0}) (Unit {0})
sdk = record {
  pack_counters = λ c. packed (codes "counters");
  pack_clients = λ c. packed (codes "clients");
  pack_cluster = λ c. failed tt;
  svc_handle_default_rpc = λ m. failed tt;
}

-- A method without and with a payload, the cluster's without the feature, and another one.
calls :
    (handle_call listed_map sdk false now (codes "stats.counters") [] ≡ packed (codes "counters"))
    × (handle_call listed_map sdk false now (codes "stats.clients") (0 ∷ []) ≡ params_error)
    × (handle_call listed_map sdk false now (codes "stats.cluster") (0 ∷ []) ≡ failed tt)
unfolding handle_call
calls = (refl, refl, refl)

-- A login without a password is refused, another scheme counts as none, and nobody is `_` here.
answers :
    ((handler listed_map web plain_crypto guards
        (record asked { authorization = some (codes "Basic ann") })
        now).status
      ≡ 400)
    × ((handler listed_map web plain_crypto guards
          (record asked { authorization = some (codes "Bearer x") })
          now).status
        ≡ 401)
    × ((handler listed_map web plain_crypto guards (record asked { path = codes "/x" }) now).status
        ≡ 404)
unfolding handler
answers = (refl, refl, refl)
