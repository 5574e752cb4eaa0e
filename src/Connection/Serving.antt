-- ===== src/Connection/Serving.antt =====
-- src/server.rs: `handle_unix_stream` and `handle_tcp_stream`.
use psrt.Prelude.{ℕ, Bool, true, false, ◌&&◌, Option, none, some, [], ◌∷◌, if◌then◌else◌}
use psrt.Prelude.Bytes.{Bytes, is_empty}
use psrt.Prelude.Split.{splitn2}
use psrt.Fault.{Result, ok, err, ok_or, error_access, text, shown, from_utf8}
use psrt.Exec.{Exec, pure, lift, gets, ◌>>=◌, ◌>>◌}
use psrt.Comm.{read_frame, write}
use psrt.Acl.{Acl, get_acl, new_full}
use psrt.PubSub.Submap.{ServerClient, SubMap}
use psrt.PubSub.Db.{data_of, abort_tasks, register_client, unregister_client}
use psrt.Keys.{Crypto, verify}
use psrt.Server.{Settings, Session, on_stream, on_db}
use psrt.Control.{Control, process_control}
use psrt.Guards.{Guards, user_of, format_login}
use psrt.Connection.{
  StreamType, control_stream, data_stream, Acceptor, max_auth_frame_size, Opened, launched, serving,
  second_part, init_unix_stream, init_tcp_stream, launch_data_stream,
}

module _ {Map : Type 0} (S : SubMap Map) (cfg : Settings) where
  -- `register_client` and the token to the client. If the token cannot be written, the handler
  -- returns at once.
  unfoldable pub enroll : Bytes → Bytes → Exec (Session Map) ServerClient
  enroll login addr = do
    client ← on_db (register_client S login addr)
    token ← gets (λ s. (data_of client s.db).token)
    on_stream (write token)
    pure client

  unfoldable pub open_unix : ℕ → Bytes → StreamType → Exec (Session Map) Opened
  unfolding enroll
  open_unix timeout path control_stream = do
    frame ← on_stream (read_frame (some max_auth_frame_size))
    login ← lift (from_utf8 (splitn2 0 frame).0)
    client ← enroll login path
    pure (serving client new_full)
  open_unix timeout path data_stream = pure launched

  -- `Acl` of a login that is let in: no password for an anonymous login where that is allowed, the
  -- password of the login otherwise.
  unfoldable pub log_in : Crypto → Guards → Bytes → Bytes → Bytes → Result Acl
  log_in C guards addr login password =
      if (if is_empty login && is_empty password
        then cfg.allow_anonymous
        else verify C guards.password_db login password)
      then ok_or (get_acl guards.acl_db (user_of login))
          (error_access (text "No ACL for " ∷ shown (format_login login) ∷ []))
      else if is_empty login && is_empty password
      then err (error_access (text "anonymous login failed from " ∷ shown addr ∷ []))
      else err
          (error_access (text "login failed for " ∷ shown login ∷ text " from " ∷ shown addr ∷ []))

  unfoldable pub open_tcp : Crypto → Guards → Bytes → StreamType → Exec (Session Map) Opened
  unfolding enroll log_in
  open_tcp C guards addr control_stream = do
    frame ← on_stream (read_frame (some max_auth_frame_size))
    login ← lift (from_utf8 (splitn2 0 frame).0)
    password ← lift (second_part (splitn2 0 frame).1)
    acl ← lift (log_in C guards addr login password)
    client ← enroll login addr
    pure (serving client acl)
  open_tcp C guards addr data_stream = pure launched

  -- What stands behind `process_control`, whatever its result was.
  abbrev pub release : ServerClient → Session Map → Session Map
  release client s = record s { db = abort_tasks client (unregister_client S client s.db) }

  abbrev pub closed : Result (Unit {0}) → Result Bool
  closed (ok u) = ok true
  closed (err e) = err e

  unfoldable pub serve :
      ℕ → ℕ → ServerClient → Acl → Session Map → Option (Result Bool × Session Map)
  serve fuel timeout client acl s =
      let ctl : Control = record {
        client = client;
        acl = acl;
        timeout = timeout;
        settings = cfg;
      } in
      elim (process_control S ctl fuel s) [
        | none ↦ none
        | some r ↦ some (closed r.0, release client r.1)
      ]

  -- The end of both handlers; `pinger` and `sender` are the tasks that a data stream spawns.
  unfoldable pub finish :
      ℕ → ℕ → ℕ → ℕ → Result Opened → Session Map → Option (Result Bool × Session Map)
  unfolding serve
  finish fuel timeout pinger sender (err e) s = some (err e, s)
  finish fuel timeout pinger sender (ok launched) s =
      some ((do launch_data_stream cfg timeout pinger sender; pure false) s)
  finish fuel timeout pinger sender (ok (serving client acl)) s = serve fuel timeout client acl s

  abbrev pub unix_opening : ℕ → Bytes → Exec (Session Map) Opened
  unix_opening timeout path = do st ← init_unix_stream timeout; open_unix timeout path st

  abbrev pub tcp_opening : Crypto → Guards → ℕ → Bytes → Acceptor → Bool → Exec (Session Map) Opened
  tcp_opening C guards timeout addr acceptor allow_no_tls = do
    st ← init_tcp_stream timeout acceptor allow_no_tls
    open_tcp C guards addr st

  unfoldable pub handle_unix_stream :
      ℕ → ℕ → ℕ → ℕ → Bytes → Session Map → Option (Result Bool × Session Map)
  unfolding finish open_unix ◌>>=◌
  handle_unix_stream fuel timeout pinger sender path s =
      let r = unix_opening timeout path s in finish fuel timeout pinger sender r.0 r.1

  unfoldable pub handle_tcp_stream :
      Crypto
      → Guards
      → ℕ
      → ℕ
      → ℕ
      → ℕ
      → Bytes
      → Acceptor
      → Bool
      → Session Map
      → Option (Result Bool × Session Map)
  unfolding finish open_tcp ◌>>=◌
  handle_tcp_stream C guards fuel timeout pinger sender addr acceptor allow_no_tls s =
      let r = tcp_opening C guards timeout addr acceptor allow_no_tls s in
      finish fuel timeout pinger sender r.0 r.1
