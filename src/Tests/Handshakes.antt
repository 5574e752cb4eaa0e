-- ===== src/Tests/Handshakes.antt =====
-- A client that connects to a server with both of its streams.
use psrt.Prelude.{◌≤◌, some, ◌≡◌, refl, true, false, none, some, [], ◌∷◌, ◌++◌, arith}
use psrt.Prelude.Bytes.{Bytes, codes, has}
use psrt.Prelude.Utf8.{is_utf8}
use psrt.Wire.{control_header, data_header, comm_insecure}
use psrt.Fault.{ok}
use psrt.Comm.{Stream, takes}
use psrt.Comm.Delivery.{at_hand}
use psrt.Acl.{new_full, get_acl}
use psrt.Keys.{verify}
use psrt.PubSub.Submap.{ServerClient}
use psrt.PubSub.Db.{register_client}
use psrt.Server.{Session}
use psrt.Connection.{serving}
use psrt.Connection.Serving.{log_in, tcp_opening, handle_tcp_stream}
use psrt.Client.Config.{Config, new, set_auth, is_unix_socket}
use psrt.Client.Connect.{Dial, Tls, is_secured, auth_buf, connect_streams, connect, exists}
use psrt.Client.Waiting.{connect_finds}
use psrt.Handshake.{CanGreet, LetsIn, written, connect_streams-served}
use psrt.Tests.ListedMap.{ListedMap, listed_map}
use psrt.Tests.Database.{empty_db}
use psrt.Tests.Sessions.{limits, session_of}
use psrt.Tests.Packets.{plain_crypto, guards}

abbrev no_tls : Tls
no_tls = record { from_pem = λ ca. ok tt; build = λ ca. ok tt; connect = λ ca domain s. (ok tt, s) }

abbrev config : Config
config = set_auth (codes "ann") (codes "pw") (new (codes "localhost:2873"))

abbrev token : Bytes
token = codes "0123456789abcdef0123456789abcdef"

abbrev ready : Session ListedMap
ready = record (session_of (at_hand (control_header ++ comm_insecure ∷ auth_buf config) [])) {
  db = record empty_db { supply = token ∷ [] };
}

abbrev member : ServerClient
member = record { digest = token; at = 0 }

can_greet : CanGreet config
unfolding is_secured has is_utf8
can_greet = record {
  plain = refl;
  clean = refl;
  valid = refl;
  valid_password = refl;
  short = omega arith;
}

lets_in : LetsIn listed_map limits plain_crypto guards config (codes "host") ready member new_full
unfolding log_in register_client verify get_acl
lets_in = record { let_in = refl; enrolled = refl; size = refl }

abbrev accepted : Session ListedMap
accepted = record (session_of (at_hand (data_header ++ comm_insecure ∷ (token ++ 5 ∷ [])) [])) {
  db = (tcp_opening listed_map limits plain_crypto guards 10 (codes "host") none true ready).1.db;
}

abbrev unused : Stream
unused = record { input = []; closes = none; takings = []; output = []; now = 0; timeout = 0 }

abbrev dialing : Dial
dialing = record {
  now = 7;
  socket_since = none;
  oversleep = λ n. 0;
  control_call = takes 2;
  data_call = takes 3;
  control_stream = record unused {
    input =
        at_hand
          (tcp_opening listed_map limits plain_crypto guards 10 (codes "host") none true
            ready).1.stream.output
          [];
  };
  data_stream = record unused {
    input =
        at_hand
          (written (
            handle_tcp_stream listed_map limits plain_crypto guards 0 10 7 8 (codes "data") none
              true accepted))
          [];
  };
}

connect_streams-served_example :
    ((connect_streams no_tls config 7 dialing).0 ≡ ok token)
    × ((connect_streams no_tls config 7 dialing).1.control_stream.output
        ≡ control_header ++ comm_insecure ∷ auth_buf config)
    × ((connect_streams no_tls config 7 dialing).1.data_stream.output
        ≡ data_header ++ comm_insecure ∷ (token ++ 5 ∷ []))
    × ((tcp_opening listed_map limits plain_crypto guards 10 (codes "host") none true ready).0
        ≡ ok (serving member new_full))
    × ((t' : Session ListedMap) × (handle_tcp_stream listed_map limits plain_crypto guards 0 10 7 8
            (codes "data")
            none
            true
            accepted
          ≡ some (ok false, t'))
        × ((t'.db.heap 0).data_channel ≡ some accepted.db.next_channel))
unfolding register_client
connect_streams-served_example =
    connect_streams-served listed_map limits plain_crypto guards no_tls config 0 10 7 8 2 3 none
      (codes "host") (codes "data") member new_full [] [] [] [] ready accepted dialing can_greet
      refl lets_in (refl, refl) (refl, refl) (refl, refl) (refl, refl) refl refl (omega arith) refl
      refl refl refl refl

abbrev local_config : Config
local_config = set_auth (codes "ann") (codes "pw") (new (codes "/run/psrt.sock"))

-- The socket appears 3 seconds later, and each sleep takes a millisecond more.
abbrev early : Dial
early = record dialing { socket_since = some 3000000007; oversleep = λ n. 1000000 }

connect_finds_example :
    (s' : Dial) × (connect no_tls local_config 60 early
      ≡ some (connect_streams no_tls local_config s'.now s'))
    × (exists s' ≡ true)
    × (s'.now ≤ 5000000007)
unfolding is_unix_socket
connect_finds_example =
    connect_finds no_tls local_config 60 3000000007 1000000 early refl refl refl (λ n. omega arith)
      (omega arith) (omega arith) (omega arith)
