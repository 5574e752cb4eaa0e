-- ===== src/Connection/Greeting.antt =====
-- What the server makes of the bytes that `Client::connect` sends.
use psrt.Prelude.{ℕ, ◌≤◌, ◌≡◌, refl, true, false, some, [], ◌∷◌, ◌++◌, arith, length}
use psrt.Prelude.Bytes.{Bytes, has, beq}
use psrt.Prelude.Split.{splitn2-append}
use psrt.Prelude.Words.{le16, le32}
use psrt.Prelude.Utf8.{is_utf8}
use psrt.Wire.{control_header, data_header, comm_insecure, protocol_version}
use psrt.Fault.{ok}
use psrt.Exec.{Exec, pure, lift, ◌>>=◌}
use psrt.Comm.{Arrivals, read_frame}
use psrt.Comm.Delivery.{write-at_once, at_hand, read_with_timeout-at_hand, read_frame-at_hand}
use psrt.Acl.{Acl}
use psrt.PubSub.Db.{data_of, register_client}
use psrt.PubSub.Submap.{SubMap, ServerClient}
use psrt.Keys.{Crypto}
use psrt.Server.{Settings, Session, on_stream, on_db}
use psrt.Guards.{Guards}
use psrt.Connection.{
  Acceptor, Opened, serving, control_stream, data_stream, stream_type, start_stream, choose_mode,
  init_tcp_stream, max_auth_frame_size,
}
use psrt.Connection.Serving.{enroll, log_in, open_tcp, tcp_opening}

module _ {Map : Type 0} where
  -- The session after the greeting was answered.
  abbrev pub welcomed : ℕ → Bytes → Arrivals → Session Map → Session Map
  welcomed timeout header later s = record s {
    stream = record s.stream {
      input = later;
      timeout = timeout;
      output = s.stream.output ++ (header ++ le16 protocol_version);
    };
  }

  -- A control greeting without TLS, where that is allowed, is answered with the version.
  init_tcp_stream-control :
      (timeout : ℕ) (acceptor : Acceptor) (later : Arrivals) (s : Session Map)
      → s.stream.takings ≡ []
      → s.stream.input ≡ at_hand (control_header ++ comm_insecure ∷ []) later
      → init_tcp_stream timeout acceptor true s
        ≡ (ok control_stream, welcomed timeout control_header later s)
  unfolding init_tcp_stream on_stream stream_type start_stream choose_mode beq ◌>>=◌
  init_tcp_stream-control timeout acceptor later s free h =
      rw (read_with_timeout-at_hand (control_header ++ comm_insecure ∷ []) timeout later s.stream h)
        (rw
          (write-at_once (control_header ++ le16 protocol_version)
            (record s.stream { input = later; timeout = timeout }) free)
          refl)

  -- So is a data greeting.
  pub init_tcp_stream-data :
      (timeout : ℕ) (acceptor : Acceptor) (later : Arrivals) (s : Session Map)
      → s.stream.takings ≡ []
      → s.stream.input ≡ at_hand (data_header ++ comm_insecure ∷ []) later
      → init_tcp_stream timeout acceptor true s
        ≡ (ok data_stream, welcomed timeout data_header later s)
  unfolding init_tcp_stream on_stream stream_type start_stream choose_mode beq ◌>>=◌
  init_tcp_stream-data timeout acceptor later s free h =
      rw (read_with_timeout-at_hand (data_header ++ comm_insecure ∷ []) timeout later s.stream h) (
        rw
          (write-at_once (data_header ++ le16 protocol_version)
            (record s.stream { input = later; timeout = timeout }) free)
          refl)

module _ {Map : Type 0} (S : SubMap Map) (cfg : Settings) (C : Crypto) (guards : Guards) where
  -- What stands behind the credentials.
  abbrev pub behind_login : Bytes → Bytes → Bytes → Exec (Session Map) Opened
  behind_login addr user password = do
    acl ← lift (log_in S cfg C guards addr user password)
    client ← enroll S cfg user addr
    pure (serving client acl)

  -- The frame of the credentials is taken for just this user and this password.
  open_tcp-frame :
      (addr user password : Bytes) (later : Arrivals) (s : Session Map)
      → has 0 user ≡ false
      → is_utf8 user ≡ true
      → is_utf8 password ≡ true
      → length (user ++ 0 ∷ password) ≤ max_auth_frame_size
      → s.stream.input
        ≡ at_hand (le32 (length (user ++ 0 ∷ password)) ++ (user ++ 0 ∷ password)) later
      → open_tcp S cfg C guards addr control_stream s
        ≡ behind_login addr user password (record s { stream = record s.stream { input = later } })
  unfolding open_tcp on_stream read_frame ◌>>=◌
  open_tcp-frame addr user password later s clean valid valid_password short h =
      let frame = user ++ 0 ∷ password in
      rw
        (
          read_frame-at_hand (some max_auth_frame_size) s.stream.timeout frame later s.stream
              (omega (arith, short)) (ground (arith, short)) h,
          splitn2-append 0 user password clean,
          valid,
          valid_password,
        )
        refl

  -- The same behind a control greeting, up to the answer of `log_in`.
  pub tcp_opening-hello :
      (timeout : ℕ) (acceptor : Acceptor) (addr user password : Bytes) (later : Arrivals)
      (s : Session Map)
      → has 0 user ≡ false
      → is_utf8 user ≡ true
      → is_utf8 password ≡ true
      → length (user ++ 0 ∷ password) ≤ max_auth_frame_size
      → s.stream.takings ≡ []
      → s.stream.input
        ≡ at_hand
            (control_header
              ++ comm_insecure ∷ (le32 (length (user ++ 0 ∷ password)) ++ (user ++ 0 ∷ password)))
            later
      → tcp_opening S cfg C guards timeout addr acceptor true s
        ≡ behind_login addr user password (welcomed timeout control_header later s)
  unfolding ◌>>=◌ le32
  tcp_opening-hello timeout acceptor addr user password later s clean valid valid_password short
        free h =
      let left : Arrivals =
        at_hand (le32 (length (user ++ 0 ∷ password)) ++ (user ++ 0 ∷ password)) later in
      rw
        (
          init_tcp_stream-control timeout acceptor left s free h,
          open_tcp-frame addr user password later (welcomed timeout control_header left s) clean
              valid valid_password short refl,
        )
        refl

  -- A login that is let in is registered, and its token is sent.
  pub behind_login-enrolled :
      (addr user password : Bytes) (s : Session Map) {acl : Acl} {client : ServerClient}
      → log_in S cfg C guards addr user password ≡ ok acl
      → (register_client S user addr s.db).0 ≡ ok client
      → s.stream.takings ≡ []
      → behind_login addr user password s ≡ (
        ok (serving client acl),
        record s {
          db = (register_client S user addr s.db).1;
          stream = record s.stream {
            output = s.stream.output ++ (data_of client (register_client S user addr s.db).1).token;
          };
        },
      )
  unfolding enroll on_db on_stream ◌>>=◌
  behind_login-enrolled addr user password s {client = client} let_in enrolled free =
      rw (let_in, enrolled)
        (rw
          (write-at_once (data_of client (register_client S user addr s.db).1).token s.stream free)
          refl)
