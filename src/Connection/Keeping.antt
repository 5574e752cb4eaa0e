-- ===== src/Connection/Keeping.antt =====
-- A whole connection keeps the client database sound.
use psrt.Prelude.{ℕ, ◌≡◌, refl, Bool, false, none, some, arith, Option-cases, inl, inr}
use mathlib.Core.Path.{subst}
use psrt.Prelude.Bytes.{Bytes}
use psrt.Fault.{Result, ok, err, Result-cases}
use psrt.Exec.{Exec, pure, change, ◌>>=◌, ◌>>◌}
use psrt.Exec.Keeps.{Keeps, Keeps-pure, Keeps-gets, Keeps-change, Keeps-bind, keeps_rules}
use psrt.Exec.Yields.{Yields, Yields-bind, Yields-pure}
use psrt.Comm.{Stream, write}
use psrt.Acl.{Acl}
use psrt.PubSub.Submap.{ServerClient, SubMap, SubMapLaws}
use psrt.PubSub.Db.{data_of, new_channel, register_data_channel, register_task, register_client}
use psrt.PubSub.Db.Invariant.{IsLive}
use psrt.PubSub.Db.Registered.{register_client-listed}
use psrt.Wire.{response_ok}
use psrt.Keys.{Crypto}
use psrt.Guards.{Guards}
use psrt.Server.{Settings, Session, on_stream, on_db}
use psrt.Control.{Control, process_control, respond}
use psrt.Control.Kept.{process_control-OnDb}
use psrt.Control.Keeping.{IsSound}
use psrt.Connection.{
  StreamType, control_stream, data_stream, Acceptor, Opened, launched, serving, init_tcp_stream,
  start_stream, choose_mode, launch_data_stream, launch_registered, or_closed, announce,
  close_channel,
}
use psrt.Connection.Serving.{
  enroll, open_tcp, tcp_opening, release, serve, finish, handle_tcp_stream,
}
use psrt.Connection.Sound.{
  register_client-IsSound, unregister-IsSound, new_channel-IsSound, register_data_channel-IsSound,
  register_task-IsSound, close_channel-IsSound,
}
use psrt.Connection.Live.{IsServed, IsServed-KeptBy}

module _ {Map : Type 0} (S : SubMap Map) (L : SubMapLaws S) (cfg : Settings) where
  -- A connection that is served has its client listed.
  abbrev Served : Opened → Session Map → Type 0
  Served launched s = Unit
  Served (serving c acl) s = IsLive S L c s.db

  enrolled-Served :
      (acl : Acl) (login addr : Bytes)
      → Yields Served (enroll S cfg login addr >>= λ c. pure (serving c acl))
  unfolding enroll ◌>>=◌ on_db on_stream
  enrolled-Served acl login addr = record {
    at = λ s o h. elim (Result-cases (register_client S login addr s.db).0) [
      | inr (e, never) ↦ absurd (ground (arith, h, never))
      | inl (c, registered) ↦
          elim (Result-cases
            (write (data_of c (register_client S login addr s.db).1).token s.stream).0) [
              | inr (e, never) ↦ absurd (ground (arith, h, registered, never))
              | inl (u, sent) ↦
                  let same : serving c acl ≡ o = ground (arith, h, registered, sent) in
                  subst
                    (λ x. Served x ((enroll S cfg login addr >>= λ c. pure (serving c acl)) s).1)
                    same
                    (rw (registered, sent) (register_client-listed S login addr s.db registered))
            ]
    ];
  }

  open_tcp-Served :
      (C : Crypto) (guards : Guards) (addr : Bytes) (st : StreamType)
      → Yields Served (open_tcp S cfg C guards addr st)
  unfolding open_tcp
  open_tcp-Served C guards addr control_stream = search (Yields-bind, enrolled-Served) depth 8
  open_tcp-Served C guards addr data_stream = Yields-pure launched (λ s. tt)

  tcp_opening-Served :
      (C : Crypto) (guards : Guards) (timeout : ℕ) (addr : Bytes) (acceptor : Acceptor)
      (allow_no_tls : Bool)
      → Yields Served (tcp_opening S cfg C guards timeout addr acceptor allow_no_tls)
  tcp_opening-Served C guards timeout addr acceptor allow_no_tls =
      Yields-bind (init_tcp_stream timeout acceptor allow_no_tls) (open_tcp S cfg C guards addr)
        (open_tcp-Served C guards addr)

module _ {Map : Type 0} (S : SubMap Map) (L : SubMapLaws S) (cfg : Settings) where
  abbrev Sound : Session Map → Type 0
  Sound s = IsSound S L s.db

  on_stream-Sound : {A : Type 0} (m : Exec Stream A) → Keeps Sound (on_stream m)
  unfolding on_stream
  on_stream-Sound m = record { at = λ s h. h }

  on_register-Sound : (login addr : Bytes) → Keeps Sound (on_db (register_client S login addr))
  unfolding on_db
  on_register-Sound login addr = record {
    at = λ s h. register_client-IsSound S L login addr s.db h;
  }

  enroll-Sound : (login addr : Bytes) → Keeps Sound (enroll S cfg login addr)
  unfolding enroll
  enroll-Sound login addr = search (keeps_rules, on_stream-Sound, on_register-Sound) depth 8

  open_tcp-Sound :
      (C : Crypto) (guards : Guards) (addr : Bytes) (st : StreamType)
      → Keeps Sound (open_tcp S cfg C guards addr st)
  unfolding open_tcp
  open_tcp-Sound C guards addr control_stream =
      search (keeps_rules, on_stream-Sound, enroll-Sound) depth 12
  open_tcp-Sound C guards addr data_stream = search (keeps_rules)

  set_timeout-Sound :
      (timeout : ℕ)
      → Keeps Sound
          (change (λ s. (tt {0}, record s { stream = record s.stream { timeout = timeout } })))
  set_timeout-Sound timeout = Keeps-change _ (λ s h. h)

  init_tcp_stream-Sound :
      (timeout : ℕ) (acceptor : Acceptor) (allow_no_tls : Bool)
      → Keeps Sound (init_tcp_stream timeout acceptor allow_no_tls)
  unfolding init_tcp_stream start_stream choose_mode
  init_tcp_stream-Sound timeout none allow_no_tls =
      search (keeps_rules, on_stream-Sound, set_timeout-Sound) depth 14
  init_tcp_stream-Sound timeout (some accept) allow_no_tls =
      search (keeps_rules, on_stream-Sound, set_timeout-Sound) depth 14

  close-Sound : (ch : ℕ) → Keeps Sound (change (λ s. (tt {0}, close_channel ch s)))
  close-Sound ch = Keeps-change _ (λ s h. close_channel-IsSound S L ch s h)

  task-Sound :
      (c : ServerClient) (task : ℕ)
      → Keeps Sound (change (λ s. (tt {0}, record s { db = register_task c task s.db })))
  task-Sound c task = Keeps-change _ (λ s h. register_task-IsSound S L c task s.db h)

  or_closed-Sound :
      (ch : ℕ) (r : Result (Unit {0}) × Session Map) → Sound r.1 → Sound (or_closed ch r).1
  or_closed-Sound ch (ok u, s) h = h
  or_closed-Sound ch (err e, s) h = close_channel-IsSound S L ch s h

  announce-Sound : (ch : ℕ) → Keeps Sound (announce ch)
  unfolding on_stream
  announce-Sound ch = record { at = λ s h. or_closed-Sound ch (respond response_ok s) h }

  launch_registered-Sound :
      (ch pinger sender : ℕ) (r : Result (ℕ × ServerClient))
      → Keeps Sound (launch_registered ch pinger sender r)
  unfolding launch_registered
  launch_registered-Sound ch pinger sender (ok (channel, c)) =
      search (keeps_rules, announce-Sound, task-Sound)
  launch_registered-Sound ch pinger sender (err e) =
      search (keeps_rules, close-Sound, on_stream-Sound)

  channel-Sound :
      Keeps Sound
        (change (λ s. let r = new_channel cfg.data_queue_size s.db in (r.0, record s { db = r.1 })))
  channel-Sound = Keeps-change _ (λ s h. new_channel-IsSound S L cfg.data_queue_size s.db h)

  attaching-Sound :
      (token : Bytes) (ch : ℕ)
      → Keeps Sound (
          change (λ s. let r = register_data_channel token ch s.db in (r.0, record s { db = r.1 })))
  attaching-Sound token ch =
      Keeps-change _ (λ s h. register_data_channel-IsSound S L token ch s.db h)

  launch_data_stream-Sound :
      (timeout pinger sender : ℕ) → Keeps Sound (launch_data_stream cfg timeout pinger sender)
  unfolding launch_data_stream
  launch_data_stream-Sound timeout pinger sender = Keeps-bind _ _ (Keeps-gets _) λ op_start.
      Keeps-bind _ _ (on_stream-Sound _) λ token. Keeps-bind _ _ (Keeps-gets _) λ wait.
        Keeps-bind _ _ (on_stream-Sound _) λ u. Keeps-bind _ _ channel-Sound λ ch.
          Keeps-bind _ _ (attaching-Sound token ch)
            λ res. launch_registered-Sound ch pinger sender res

  serve-IsSound :
      (fuel timeout : ℕ) (c : ServerClient) (acl : Acl) (s : Session Map)
      {r : Result Bool × Session Map}
      → serve S cfg fuel timeout c acl s ≡ some r
      → IsServed S L c s.db
      → Sound r.1
  unfolding serve
  serve-IsSound fuel timeout c acl s {r} h served =
      let ctl : Control = record { client = c; acl = acl; timeout = timeout; settings = cfg } in
      elim (Option-cases (process_control S ctl fuel s)) [
        | inl none_left ↦ absurd (ground (arith, h, none_left))
        | inr (q, e) ↦
            let after =
              process_control-OnDb S ctl (IsServed S L c) (IsServed-KeptBy S L ctl c) fuel s e
                served in
            let same : release S cfg c q.1 ≡ r.1 = ground (arith, h, e) in
            subst Sound same (unregister-IsSound S L c q.1.db after.1 after.0)
      ]

  finish-IsSound :
      (fuel timeout pinger sender : ℕ) (o : Result Opened) (s : Session Map)
      {r : Result Bool × Session Map}
      → finish S cfg fuel timeout pinger sender o s ≡ some r
      → ((a : Opened) → o ≡ ok a → Served S L cfg a s)
      → Sound s
      → Sound r.1
  unfolding finish
  finish-IsSound fuel timeout pinger sender (err e) s {r} h live sound =
      let same : s ≡ r.1 = ground (arith, h) in subst Sound same sound
  finish-IsSound fuel timeout pinger sender (ok launched) s {r} h live sound =
      let kept =
        (Keeps-bind {P = Sound} (launch_data_stream cfg timeout pinger sender) (λ u. pure false)
            (launch_data_stream-Sound timeout pinger sender) (λ u. Keeps-pure false)).at
          s sound in
      let same : ((do launch_data_stream cfg timeout pinger sender; pure false) s) ≡ r =
        ground (arith, h) in
      subst (λ x. Sound x.1) same kept
  finish-IsSound fuel timeout pinger sender (ok (serving c acl)) s h live sound =
      serve-IsSound fuel timeout c acl s h (sound, live (serving c acl) refl)

  -- Whatever a TCP peer sends, however its connection is refused, broken or ended, and whether it
  -- is a control or a data stream: a client database that was well formed, with its queues within
  -- their capacities, is so when the handler of the connection returns.
  pub handle_tcp_stream-IsSound :
      (C : Crypto) (guards : Guards) (fuel timeout pinger sender : ℕ) (addr : Bytes)
      (acceptor : Acceptor) (allow_no_tls : Bool) (s : Session Map) {r : Result Bool × Session Map}
      → handle_tcp_stream S cfg C guards fuel timeout pinger sender addr acceptor allow_no_tls s
        ≡ some r
      → IsSound S L s.db
      → IsSound S L r.1.db
  unfolding handle_tcp_stream
  handle_tcp_stream-IsSound C guards fuel timeout pinger sender addr acceptor allow_no_tls s h
        sound =
      let opening = tcp_opening S cfg C guards timeout addr acceptor allow_no_tls in
      finish-IsSound fuel timeout pinger sender (opening s).0 (opening s).1 h
        (λ a e. (tcp_opening-Served S L cfg C guards timeout addr acceptor allow_no_tls).at s a e)
        ((Keeps-bind {P = Sound} (init_tcp_stream timeout acceptor allow_no_tls)
            (open_tcp S cfg C guards addr) (init_tcp_stream-Sound timeout acceptor allow_no_tls)
            (open_tcp-Sound C guards addr)).at
          s sound)
