-- ===== src/Handshake.antt =====
-- src/client.rs and src/server.rs: `Client::connect` against the handlers of the server's sockets.
use psrt.Prelude.{
  ℕ, ◌+◌, ◌≤◌, ◌≡◌, refl, sym, ap, ◌∙◌, Bool, true, false, Option, none, some, [], ◌∷◌, ◌++◌, arith,
  length, append_assoc, length-append,
}
use psrt.Prelude.Bytes.{Bytes, has}
use psrt.Prelude.Words.{le16, le32}
use psrt.Prelude.Utf8.{is_utf8}
use psrt.Wire.{control_header, data_header, comm_insecure, protocol_version, response_ok}
use psrt.Fault.{Result, ok}
use psrt.Comm.{Arrivals, Stream, takes}
use psrt.Prelude.Assoc.{lookup}
use psrt.Comm.Delivery.{at_hand}
use psrt.Acl.{Acl}
use psrt.PubSub.Submap.{SubMap, ServerClient}
use psrt.PubSub.Db.{data_of, register_client}
use psrt.PubSub.Db.Registered.{register_client-listed, register_client-vacant}
use psrt.Keys.{Crypto}
use psrt.Server.{Settings, Session}
use psrt.Guards.{Guards}
use psrt.Connection.{Acceptor, serving, max_auth_frame_size}
use psrt.Connection.Serving.{log_in, tcp_opening, handle_tcp_stream}
use psrt.Connection.Greeting.{welcomed, behind_login-enrolled, tcp_opening-hello}
use psrt.Connection.Launching.{handle_tcp_stream-data}
use psrt.Client.Config.{Config}
use psrt.Client.Connect.{Dial, Tls, is_secured, auth_buf, timeout_secs, connect_streams}
use psrt.Client.Handshake.{connect_streams-at_hand}

-- A configuration without TLS whose credentials the protocol can carry.
pub record CanGreet (c : Config) : Type 0 where
  pub plain : is_secured c ≡ false
  pub clean : has 0 c.user ≡ false
  pub valid : is_utf8 c.user ≡ true
  pub valid_password : is_utf8 c.password ≡ true
  pub short : length (c.user ++ 0 ∷ c.password) ≤ max_auth_frame_size

-- Nothing was written, and what is written is taken at once.
abbrev pub IsFresh : Stream → Type 0
IsFresh x = (x.takings ≡ []) × (x.output ≡ [])

-- The bytes that a handler wrote.
abbrev pub written : {Map : Type 0} → Option (Result Bool × Session Map) → Bytes
written none = []
written (some r) = r.1.stream.output

auth_buf-frame :
    (c : Config)
    → CanGreet c
    → auth_buf c ≡ le32 (length (c.user ++ 0 ∷ c.password)) ++ (c.user ++ 0 ∷ c.password)
unfolding auth_buf
auth_buf-frame c g =
    ap (λ n. le32 n ++ (c.user ++ 0 ∷ c.password))
      (omega (arith, g.short, length-append c.user (0 ∷ c.password)))

module _ {Map : Type 0} (S : SubMap Map) (cfg : Settings) (C : Crypto) (guards : Guards) where
  -- The server lets the credentials in, and registers them as `client`.
  pub record LetsIn (c : Config) (addr : Bytes) (s : Session Map) (client : ServerClient)
      (acl : Acl) : Type 0 where
    pub let_in : log_in S cfg C guards addr c.user c.password ≡ ok acl
    pub enrolled : (register_client S c.user addr s.db).0 ≡ ok client
    pub size : length (data_of client (register_client S c.user addr s.db).1).token ≡ 32

  -- The token that the client is registered under.
  abbrev pub token_of : Config → Bytes → ServerClient → Session Map → Bytes
  token_of c addr client s = (data_of client (register_client S c.user addr s.db).1).token

  tcp_opening-served :
      (timeout : ℕ) (acceptor : Acceptor) (c : Config) (addr : Bytes) (client : ServerClient)
      (acl : Acl) (later : Arrivals) (s : Session Map)
      → CanGreet c
      → LetsIn c addr s client acl
      → s.stream.takings ≡ []
      → s.stream.input ≡ at_hand (control_header ++ comm_insecure ∷ auth_buf c) later
      → (s' : Session Map) × (tcp_opening S cfg C guards timeout addr acceptor true s
          ≡ (ok (serving client acl), s'))
        × (s'.db ≡ (register_client S c.user addr s.db).1)
        × (s'.stream.output
            ≡ s.stream.output
              ++ (control_header ++ (le16 protocol_version ++ token_of c addr client s)))
  tcp_opening-served timeout acceptor c addr client acl later s g l free h = (
    _,
    tcp_opening-hello S cfg C guards timeout acceptor addr c.user c.password later s g.clean g.valid
          g.valid_password g.short free (rw (sym (auth_buf-frame c g)) h)
        ∙ behind_login-enrolled S cfg C guards addr c.user c.password
            (welcomed timeout control_header later s) l.let_in l.enrolled free,
    refl,
    append_assoc s.stream.output (control_header ++ le16 protocol_version)
        (token_of c addr client s),
  )

  handle_tcp_stream-served :
      (fuel timeout pinger sender : ℕ) (acceptor : Acceptor) (c : Config) (addr token : Bytes)
      (client : ServerClient) (later : Arrivals) (t : Session Map)
      → length token ≡ 32
      → lookup token t.db.clients_by_token ≡ some client
      → (t.db.heap client.at).data_channel ≡ none
      → IsFresh t.stream
      → t.stream.input
        ≡ at_hand (data_header ++ comm_insecure ∷ (token ++ timeout_secs c ∷ [])) later
      → (t' : Session Map) × (handle_tcp_stream S cfg C guards fuel timeout pinger sender addr
            acceptor true t
          ≡ some (ok false, t'))
        × (t'.stream.output ≡ data_header ++ (le16 protocol_version ++ response_ok ∷ []))
        × ((t'.db.heap client.at).data_channel ≡ some t.db.next_channel)
  unfolding le16
  handle_tcp_stream-served fuel timeout pinger sender acceptor c addr token client later t size
        known vacant fresh h =
      let (t', done, output, channel) =
        handle_tcp_stream-data S cfg C guards fuel timeout pinger sender (timeout_secs c) addr token
          acceptor client later t size known vacant fresh.0 h in
      (
        t',
        done,
        output
            ∙ ap (λ o. (o ++ (data_header ++ le16 protocol_version)) ++ response_ok ∷ []) fresh.1,
        channel,
      )

  -- A client without TLS that wants a data stream connects to a server without TLS that lets its
  -- credentials in, the user without zero bytes, both UTF-8, and together within the server's limit.
  -- All bytes are there when they are read, all writes are taken at once, the calls for the two
  -- sockets are answered within one timeout, and the data stream is accepted with the database that
  -- the control stream's opening left. If the two server handlers get what the client writes, and
  -- the client gets what they write, then the client ends with the token that the server registered
  -- it under, the control handler serves it with its access list, and the data handler has attached
  -- a channel to it.
  pub connect_streams-served :
      (tls : Tls) (c : Config) (fuel timeout pinger sender d d_data : ℕ) (acceptor : Acceptor)
      (addr data_addr : Bytes) (client : ServerClient) (acl : Acl)
      (later later_data left left_data : Arrivals) (s t : Session Map) (dial : Dial)
      → CanGreet c
      → c.need_data_stream ≡ true
      → LetsIn c addr s client acl
      → IsFresh s.stream
      → IsFresh t.stream
      → IsFresh dial.control_stream
      → IsFresh dial.data_stream
      → dial.control_call ≡ takes d
      → dial.data_call ≡ takes d_data
      → d + d_data ≤ c.timeout
      → t.db ≡ (tcp_opening S cfg C guards timeout addr acceptor true s).1.db
      → s.stream.input ≡ at_hand (control_header ++ comm_insecure ∷ auth_buf c) later
      → t.stream.input
        ≡ at_hand
            (data_header ++ comm_insecure ∷ (token_of c addr client s ++ timeout_secs c ∷ []))
            later_data
      → dial.control_stream.input
        ≡ at_hand (tcp_opening S cfg C guards timeout addr acceptor true s).1.stream.output left
      → dial.data_stream.input
        ≡ at_hand
            (written (
              handle_tcp_stream S cfg C guards fuel timeout pinger sender data_addr acceptor true
                t))
            left_data
      → ((connect_streams tls c dial.now dial).0 ≡ ok (token_of c addr client s))
        × ((connect_streams tls c dial.now dial).1.control_stream.output
            ≡ control_header ++ comm_insecure ∷ auth_buf c)
        × ((connect_streams tls c dial.now dial).1.data_stream.output
            ≡ data_header ++ comm_insecure ∷ (token_of c addr client s ++ timeout_secs c ∷ []))
        × ((tcp_opening S cfg C guards timeout addr acceptor true s).0 ≡ ok (serving client acl))
        × ((t' : Session Map) × (handle_tcp_stream S cfg C guards fuel timeout pinger sender
                data_addr acceptor true t
              ≡ some (ok false, t'))
            × ((t'.db.heap client.at).data_channel ≡ some t.db.next_channel))
  connect_streams-served tls c fuel timeout pinger sender d d_data acceptor addr data_addr client
        acl later later_data left left_data s t dial g both l fresh_s fresh_t fresh_control
        fresh_data call call_data soon behind in_s in_t in_control in_data =
      let token = token_of c addr client s in
      let (s', opened, db, output) =
        tcp_opening-served timeout acceptor c addr client acl later s g l fresh_s.0 in_s in
      let same : t.db ≡ (register_client S c.user addr s.db).1 = (rw opened at behind) ∙ db in
      let known : lookup token t.db.clients_by_token ≡ some client =
        rw same (register_client-listed S c.user addr s.db l.enrolled) in
      let vacant : (t.db.heap client.at).data_channel ≡ none =
        rw same (register_client-vacant S c.user addr s.db l.enrolled) in
      let (t', done, output_data, channel) =
        handle_tcp_stream-served fuel timeout pinger sender acceptor c data_addr token client
          later_data t l.size known vacant fresh_t in_t in
      let sent : s'.stream.output ≡ control_header ++ (le16 protocol_version ++ token) =
        output ∙ ap (λ o. o ++ (control_header ++ (le16 protocol_version ++ token))) fresh_s.1 in
      let got : dial.control_stream.input
          ≡ at_hand (control_header ++ (le16 protocol_version ++ token)) left =
        (rw opened at in_control) ∙ ap (λ b. at_hand b left) sent in
      let got_data : dial.data_stream.input
          ≡ at_hand (data_header ++ (le16 protocol_version ++ response_ok ∷ [])) left_data =
        (rw done at in_data) ∙ ap (λ b. at_hand b left_data) output_data in
      let (connected, wrote, wrote_data) =
        connect_streams-at_hand tls c d d_data token left left_data dial g.plain both call call_data
          soon fresh_control.0 fresh_data.0 l.size got got_data in
      (
        connected,
        wrote
            ∙ ap (λ o. (o ++ (control_header ++ comm_insecure ∷ [])) ++ auth_buf c) fresh_control.1,
        wrote_data
            ∙ ap (λ o. (o ++ (data_header ++ comm_insecure ∷ [])) ++ (token ++ timeout_secs c ∷ []))
                fresh_data.1,
        rw opened refl,
        (t', done, channel),
      )
