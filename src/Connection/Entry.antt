-- ===== src/Connection/Entry.antt =====
-- Who is let in by a stream connection, and that its handler ends.
use psrt.Prelude.{
  ℕ, ◌<◌, ◌≡◌, refl, Bool, true, Option, some, [], ◌∷◌, ◌++◌, arith, Bool-cases, inl, inr, length,
  take,
}
use psrt.Prelude.Bytes.{Bytes}
use psrt.Prelude.Split.{splitn2}
use psrt.Fault.{Result, ok, err, Result-cases, from_utf8}
use psrt.Exec.{change, ◌>>=◌}
use psrt.Exec.Keeps.{Keeps, Keeps-change, Keeps-bind, keeps_rules}
use psrt.Comm.{read_frame, write}
use psrt.Comm.Consumes.{read_frame-Within, write-Within, stream_rules}
use psrt.Prelude.Words.{le16}
use psrt.Wire.{protocol_version}
use psrt.Acl.{Acl, get_acl}
use psrt.PubSub.Submap.{ServerClient, SubMap}
use psrt.PubSub.Db.{register_client}
use psrt.Keys.{Crypto, verify}
use psrt.Server.{Settings, Session, on_stream, on_db}
use psrt.Control.{Control}
use psrt.Control.Consumes.{Left, on_stream-Left, process_control_total}
use psrt.Guards.{Guards, user_of}
use psrt.Connection.{
  StreamType, control_stream, data_stream, Opened, launched, serving, second_part, start_stream,
  init_unix_stream, max_auth_frame_size,
}
use psrt.Connection.Serving.{
  enroll, log_in, open_tcp, open_unix, unix_opening, closed, release, serve, finish,
  handle_unix_stream,
}

module _ (cfg : Settings) (C : Crypto) (guards : Guards) where
  -- Credentials that let a client in: the right password of the login, or none at all where
  -- anonymous clients are allowed.
  pub data Credentials (login password : Bytes) : Type 0 where
    anonymous : cfg.allow_anonymous ≡ true → login ≡ [] → password ≡ [] → Credentials login password
    verified : verify C guards.password_db login password ≡ true → Credentials login password

  pub record LoggedIn (login password : Bytes) (acl : Acl) : Type 0 where
    pub credentials : Credentials login password
    pub listed : get_acl guards.acl_db (user_of login) ≡ some acl

module _ {Map : Type 0} (S : SubMap Map) (cfg : Settings) (C : Crypto) (guards : Guards) where
  log_in-listed :
      (addr login password : Bytes) {acl : Acl}
      → log_in S cfg C guards addr login password ≡ ok acl
      → get_acl guards.acl_db (user_of login) ≡ some acl
  unfolding log_in
  log_in-listed addr login password h = ground arith

  log_in-Credentials :
      (addr login password : Bytes) {acl : Acl}
      → log_in S cfg C guards addr login password ≡ ok acl
      → Credentials cfg C guards login password
  unfolding log_in
  log_in-Credentials addr [] [] h = elim (Bool-cases cfg.allow_anonymous) [
    | inl granted ↦ anonymous granted refl refl
    | inr never ↦ absurd (ground (arith, h, never))
  ]
  log_in-Credentials addr [] (c ∷ password) h =
      elim (Bool-cases (verify C guards.password_db [] (c ∷ password))) [
        | inl granted ↦ verified granted
        | inr never ↦ absurd (ground (arith, h, never))
      ]
  log_in-Credentials addr (c ∷ login) password h =
      elim (Bool-cases (verify C guards.password_db (c ∷ login) password)) [
        | inl granted ↦ verified granted
        | inr never ↦ absurd (ground (arith, h, never))
      ]

  -- A TCP client is served only with the access list of its login (of `_` for an empty one), and
  -- only if the login frame carried the right password of that login, or neither login nor password
  -- where anonymous clients are allowed.
  pub open_tcp-LoggedIn :
      (addr : Bytes) (s : Session Map) {c : ServerClient} {acl : Acl}
      → (open_tcp S cfg C guards addr control_stream s).0 ≡ ok (serving c acl)
      → (frame : Bytes) × ((read_frame (some max_auth_frame_size) s.stream).0 ≡ ok frame)
        × ((password : Bytes) × (second_part (splitn2 0 frame).1 ≡ ok password)
            × LoggedIn cfg C guards (splitn2 0 frame).0 password acl)
  unfolding open_tcp ◌>>=◌ on_stream
  open_tcp-LoggedIn addr s {c} {acl} h =
      elim (Result-cases (read_frame (some max_auth_frame_size) s.stream).0) [
        | inr (e, never) ↦ absurd (ground (arith, h, never))
        | inl (frame, got) ↦
            let login = (splitn2 0 frame).0 in
            elim (Result-cases (from_utf8 login)) [
              | inr (e, never) ↦ absurd (ground (arith, h, got, never))
              | inl (l, valid) ↦
                  let is_login : l ≡ login = ground (arith, valid) in
                  elim (Result-cases (second_part (splitn2 0 frame).1)) [
                    | inr (e, never) ↦ absurd (ground (arith, h, got, valid, never))
                    | inl (password, there) ↦
                        elim (Result-cases (log_in S cfg C guards addr l password)) [
                          | inr (e, never) ↦ absurd (ground (arith, h, got, valid, there, never))
                          | inl (acl', passed) ↦
                              let s' : Session Map = record s {
                                stream = (read_frame (some max_auth_frame_size) s.stream).1;
                              } in
                              elim (Result-cases (enroll S cfg l addr s').0) [
                                | inr (e, never) ↦
                                    absurd (ground (arith, h, got, valid, there, passed, never))
                                | inl (c', enrolled) ↦
                                    let same : acl' ≡ acl =
                                      ground (arith, h, got, valid, there, passed, enrolled) in
                                    let granted = rw (is_login, same) at passed in
                                    (
                                      frame,
                                      got,
                                      (
                                        password,
                                        there,
                                        record {
                                          credentials =
                                              log_in-Credentials addr login password granted;
                                          listed = log_in-listed addr login password granted;
                                        },
                                      ),
                                    )
                              ]
                        ]
                  ]
            ]
      ]

module _ {Map : Type 0} (S : SubMap Map) (cfg : Settings) (k : ℕ) where
  on_db-Left :
      (login addr : Bytes) → Keeps (Left {Map = Map} k) (on_db (register_client S login addr))
  unfolding on_db
  on_db-Left login addr = record { at = λ s h. h }

  read_frame-Left : (limit : Option ℕ) → Keeps (Left {Map = Map} k) (on_stream (read_frame limit))
  unfolding on_stream read_frame
  read_frame-Left limit = record {
    at = λ s h. (read_frame-Within limit s.stream.timeout).at s.stream h;
  }

  start_stream-Left :
      (timeout : ℕ) (greeting : Bytes) → Keeps (Left {Map = Map} k) (start_stream timeout greeting)
  unfolding start_stream
  start_stream-Left timeout greeting =
      Keeps-bind
        (change (λ s. (tt {0}, record s { stream = record s.stream { timeout = timeout } })))
        (λ u. on_stream (write (take 2 greeting ++ le16 protocol_version)))
        (Keeps-change (λ s. (tt {0}, record s { stream = record s.stream { timeout = timeout } }))
          (λ s h. h))
        (λ u.
          on_stream-Left k (write (take 2 greeting ++ le16 protocol_version))
            (write-Within (take 2 greeting ++ le16 protocol_version)))

  enroll-Left : (login addr : Bytes) → Keeps (Left k) (enroll S cfg login addr)
  unfolding enroll
  enroll-Left login addr = search (keeps_rules, stream_rules, on_stream-Left, on_db-Left) depth 10

  open_unix-Left :
      (timeout : ℕ) (path : Bytes) (st : StreamType)
      → Keeps (Left k) (open_unix S cfg timeout path st)
  unfolding open_unix
  open_unix-Left timeout path data_stream = search (keeps_rules)
  open_unix-Left timeout path control_stream =
      search (keeps_rules, read_frame-Left, enroll-Left) depth 10

  init_unix_stream-Left : (timeout : ℕ) → Keeps (Left {Map = Map} k) (init_unix_stream timeout)
  unfolding init_unix_stream
  init_unix_stream-Left timeout =
      search (keeps_rules, stream_rules, on_stream-Left, start_stream-Left) depth 10

  unix_opening-Left :
      (timeout : ℕ) (path : Bytes) → Keeps (Left k) (unix_opening S cfg timeout path)
  unix_opening-Left timeout path = search (keeps_rules, init_unix_stream-Left, open_unix-Left)

module _ {Map : Type 0} (S : SubMap Map) (cfg : Settings) where
  -- The handler of a connection by a Unix socket returns, with more fuel than there are bytes to come.
  pub handle_unix_stream_total :
      (fuel timeout pinger sender : ℕ) (path : Bytes) (s : Session Map)
      → length s.stream.input < fuel
      → (r : Result Bool × Session Map) × (handle_unix_stream S cfg fuel timeout pinger sender path
            s
          ≡ some r)
  unfolding handle_unix_stream finish serve
  handle_unix_stream_total fuel timeout pinger sender path s h =
      go (unix_opening S cfg timeout path s).0 (unix_opening S cfg timeout path s).1 (
        omega (
          arith,
          h,
          (unix_opening-Left S cfg (length s.stream.input) timeout path).at s (omega arith),
        ))
    where
      go :
          (o : Result Opened) (s' : Session Map)
          → length s'.stream.input < fuel
          → (r : Result Bool × Session Map) × (finish S cfg fuel timeout pinger sender o s'
              ≡ some r)
      go (err e) s' few = (_, refl)
      go (ok launched) s' few = (_, refl)
      go (ok (serving c acl)) s' few =
          let ctl : Control = record { client = c; acl = acl; timeout = timeout; settings = cfg } in
          let (q, e) = process_control_total S ctl fuel s' few in
          ((closed S cfg q.0, release S cfg c q.1), rw (e, serve) refl)
