-- ===== src/Connection/Launching.antt =====
-- What the server makes of the bytes that `Client::connect` sends on its data stream.
use psrt.Prelude.{ℕ, ◌≡◌, refl, true, false, none, some, [], ◌∷◌, ◌++◌, arith, length, ◌∙◌, sym}
use psrt.Prelude.Bytes.{Bytes}
use psrt.Prelude.Words.{le16}
use psrt.Prelude.Assoc.{lookup}
use psrt.Wire.{data_header, comm_insecure, protocol_version, response_ok}
use psrt.Fault.{ok}
use psrt.Exec.{◌>>=◌}
use psrt.Comm.{Arrivals, read, reduce_timeout}
use psrt.Comm.Delivery.{at_hand, at_hand-append, read_with_timeout-at_hand, write-at_once}
use psrt.PubSub.Submap.{SubMap, ServerClient}
use psrt.PubSub.Store.{ServerClientData}
use psrt.PubSub.Db.{ClientDb, data_of, set_data, new_channel, register_task}
use psrt.PubSub.Db.Access.{register_data_channel-attached}
use psrt.Keys.{Crypto}
use psrt.Server.{Settings, Session, on_stream}
use psrt.Guards.{Guards}
use psrt.Connection.{Acceptor, launch_data_stream, launch_registered}
use psrt.Connection.Serving.{open_tcp, finish, handle_tcp_stream}
use psrt.Connection.Greeting.{welcomed, init_tcp_stream-data}

module _ {Map : Type 0} where
  -- The session once the answer was sent and the two tasks were registered.
  abbrev running : ℕ → ℕ → ServerClient → Session Map → Session Map
  running pinger sender client s = record s {
    stream = record s.stream { output = s.stream.output ++ response_ok ∷ [] };
    db = register_task client sender (register_task client pinger s.db);
  }

  launch_registered-answered :
      (ch channel pinger sender : ℕ) (client : ServerClient) (s : Session Map)
      → s.stream.takings ≡ []
      → launch_registered ch pinger sender (ok (channel, client)) s
        ≡ (ok tt, running pinger sender client s)
  unfolding launch_registered on_stream ◌>>=◌
  launch_registered-answered ch channel pinger sender client s free =
      rw (write-at_once (response_ok ∷ []) s.stream free) refl

  running-channel :
      (pinger sender channel : ℕ) (client : ServerClient) (db : ClientDb Map) (d : ServerClientData)
      → ((register_task client sender (
            register_task client pinger
              (set_data client (record d { data_channel = some channel }) db))).heap
          client.at).data_channel
        ≡ some channel
  unfolding register_task
  running-channel pinger sender channel client db d = ground arith

module _ {Map : Type 0} (cfg : Settings) where
  -- The token of a registered client without a data channel, and the byte behind it, make the
  -- server attach a new channel to the client and answer `RESPONSE_OK`.
  launch_data_stream-known :
      (timeout pinger sender secs : ℕ) (token : Bytes) (client : ServerClient) (later : Arrivals)
      (s : Session Map)
      → length token ≡ 32
      → lookup token s.db.clients_by_token ≡ some client
      → (s.db.heap client.at).data_channel ≡ none
      → s.stream.takings ≡ []
      → s.stream.input ≡ at_hand (token ++ secs ∷ []) later
      → (s' : Session Map) × (launch_data_stream cfg timeout pinger sender s ≡ (ok tt, s'))
        × (s'.stream.output ≡ s.stream.output ++ response_ok ∷ [])
        × ((s'.db.heap client.at).data_channel ≡ some s.db.next_channel)
  unfolding launch_data_stream launch_registered on_stream read ◌>>=◌ new_channel register_task
  launch_data_stream-known timeout pinger sender secs token client later s len known vacant free h =
      let behind : Session Map = record s {
        stream = record s.stream { input = at_hand (secs ∷ []) later };
      } in
      let opened = (new_channel cfg.data_queue_size s.db).1 in
      let attached : Session Map = record s {
        stream = record s.stream { input = later };
        db =
            set_data client
              (record (data_of client opened) { data_channel = some s.db.next_channel }) opened;
      } in
      rw
        (
          sym len,
          read_with_timeout-at_hand token s.stream.timeout (at_hand (secs ∷ []) later) s.stream
              (h ∙ at_hand-append token (secs ∷ []) later),
          read_with_timeout-at_hand (secs ∷ []) (reduce_timeout timeout s.stream.now s.stream.now)
              later behind.stream refl,
          register_data_channel-attached token s.db.next_channel client opened known vacant,
          launch_registered-answered s.db.next_channel s.db.next_channel pinger sender client
              attached free,
        )
        (
          _,
          refl,
          refl,
          running-channel pinger sender s.db.next_channel client opened (data_of client opened),
        )

module _ {Map : Type 0} (S : SubMap Map) (cfg : Settings) (C : Crypto) (guards : Guards) where
  -- The whole handler of such a connection.
  pub handle_tcp_stream-data :
      (fuel timeout pinger sender secs : ℕ) (addr token : Bytes) (acceptor : Acceptor)
      (client : ServerClient) (later : Arrivals) (s : Session Map)
      → length token ≡ 32
      → lookup token s.db.clients_by_token ≡ some client
      → (s.db.heap client.at).data_channel ≡ none
      → s.stream.takings ≡ []
      → s.stream.input ≡ at_hand (data_header ++ comm_insecure ∷ (token ++ secs ∷ [])) later
      → (s' : Session Map) × (handle_tcp_stream S cfg C guards fuel timeout pinger sender addr
            acceptor true s
          ≡ some (ok false, s'))
        × (s'.stream.output
            ≡ (s.stream.output ++ (data_header ++ le16 protocol_version)) ++ response_ok ∷ [])
        × ((s'.db.heap client.at).data_channel ≡ some s.db.next_channel)
  unfolding handle_tcp_stream finish open_tcp ◌>>=◌
  handle_tcp_stream-data fuel timeout pinger sender secs addr token acceptor client later s len
        known vacant free h =
      let rest : Arrivals = at_hand (token ++ secs ∷ []) later in
      let (s', done, output, channel) =
        launch_data_stream-known cfg timeout pinger sender secs token client later
          (welcomed timeout data_header rest s) len known vacant free refl in
      (s', rw (init_tcp_stream-data timeout acceptor rest s free h, done) refl, output, channel)
