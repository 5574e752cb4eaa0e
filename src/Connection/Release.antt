-- ===== src/Connection/Release.antt =====
-- What is left of a client when its connection ends.
use psrt.Prelude.{ℕ, ◌≡◌, Bool, false, none, some, List, ◌∷◌, arith, Option-cases, inl, inr}
use mathlib.Core.Path.{subst}
use psrt.Prelude.Bytes.{Bytes, beq_refl}
use psrt.Prelude.Assoc.{lookup, lookup-remove}
use psrt.Fault.{Error, Result, ok, err}
use psrt.Exec.{◌>>=◌}
use psrt.Comm.{Taking, fails, write, write_with_timeout}
use psrt.Acl.{Acl}
use psrt.PubSub.Submap.{ServerClient, SubMap, SubMapLaws, holds_digest}
use psrt.PubSub.Db.{
  ClientDb, data_of, abort_tasks, register_client, unregister_client, get_subscribers,
}
use psrt.PubSub.Db.Access.{unregister_client-unsubscribed}
use psrt.PubSub.Db.Registered.{register_client-listed}
use psrt.Keys.{Crypto}
use psrt.Server.{Settings, Session, on_stream, on_db}
use psrt.Control.{Control, process_control}
use psrt.Guards.{Guards}
use psrt.Connection.{Acceptor, Opened, serving}
use psrt.Connection.Serving.{enroll, release, serve, finish, tcp_opening, handle_tcp_stream}

module _ {Map : Type 0} (S : SubMap Map) (L : SubMapLaws S) (cfg : Settings) where
  -- No trace of a client is left: its token is not known, and it is a subscriber of no topic.
  pub record Gone (c : ServerClient) (db : ClientDb Map) : Type 0 where
    pub token : lookup (data_of c db).token db.clients_by_token ≡ none
    pub subscriber : (topic : Bytes) → holds_digest c.digest (get_subscribers S topic db) ≡ false

  release-Gone : (c : ServerClient) (s : Session Map) → Gone c (release S cfg c s).db
  unfolding abort_tasks unregister_client
  release-Gone c s = record {
    token =
        let token = (data_of c s.db).token in
        ground (arith, lookup-remove token token s.db.clients_by_token, beq_refl token);
    subscriber = λ topic. unregister_client-unsubscribed S L c s.db topic;
  }

  serve-Gone :
      (fuel timeout : ℕ) (c : ServerClient) (acl : Acl) (s : Session Map)
      {r : Result Bool × Session Map}
      → serve S cfg fuel timeout c acl s ≡ some r
      → Gone c r.1.db
  unfolding serve
  serve-Gone fuel timeout c acl s {r} h =
      let ctl : Control = record { client = c; acl = acl; timeout = timeout; settings = cfg } in
      elim (Option-cases (process_control S ctl fuel s)) [
        | inl none_left ↦ absurd (ground (arith, h, none_left))
        | inr (q, e) ↦
            let same : release S cfg c q.1 ≡ r.1 = ground (arith, h, e) in
            subst (λ x. Gone c x.db) same (release-Gone c q.1)
      ]

  finish-Gone :
      (fuel timeout pinger sender : ℕ) (o : Result Opened) (s : Session Map) {c : ServerClient}
      {acl : Acl} {r : Result Bool × Session Map}
      → o ≡ ok (serving c acl)
      → finish S cfg fuel timeout pinger sender o s ≡ some r
      → Gone c r.1.db
  unfolding finish
  finish-Gone fuel timeout pinger sender o s {c} {acl} e h =
      serve-Gone fuel timeout c acl s (rw e at h)

  -- However the commands of a TCP client end, with success, an error of the connection or a command
  -- that is refused: once the handler has registered and answered the client and returns, the
  -- client's token is not known and it is a subscriber of no topic.
  pub handle_tcp_stream-Gone :
      (C : Crypto) (guards : Guards) (fuel timeout pinger sender : ℕ) (addr : Bytes)
      (acceptor : Acceptor) (allow_no_tls : Bool) (s : Session Map) {c : ServerClient} {acl : Acl}
      {r : Result Bool × Session Map}
      → (tcp_opening S cfg C guards timeout addr acceptor allow_no_tls s).0 ≡ ok (serving c acl)
      → handle_tcp_stream S cfg C guards fuel timeout pinger sender addr acceptor allow_no_tls s
        ≡ some r
      → Gone c r.1.db
  unfolding handle_tcp_stream
  handle_tcp_stream-Gone C guards fuel timeout pinger sender addr acceptor allow_no_tls s {c} {acl}
        opened h =
      finish-Gone fuel timeout pinger sender
        (tcp_opening S cfg C guards timeout addr acceptor allow_no_tls s).0
        (tcp_opening S cfg C guards timeout addr acceptor allow_no_tls s).1 {acl = acl} opened h

module _ {Map : Type 0} (S : SubMap Map) (cfg : Settings) where
  -- If the token of a client that was just registered cannot be written, the opening of the
  -- connection fails with that error, and the client stays listed under its token.
  pub enroll_leaks :
      (login addr : Bytes) (s : Session Map) {c : ServerClient} {e : Error} {rest : List Taking}
      → (register_client S login addr s.db).0 ≡ ok c
      → s.stream.takings ≡ fails e ∷ rest
      → ((enroll S cfg login addr s).0 ≡ err e)
        × (lookup
              (data_of c (enroll S cfg login addr s).1.db).token
              (enroll S cfg login addr s).1.db.clients_by_token
            ≡ some c)
  unfolding enroll ◌>>=◌ on_stream on_db write write_with_timeout
  enroll_leaks login addr s registered broken = (
    ground (arith, registered, broken),
    ground (arith, registered, broken, register_client-listed S login addr s.db registered),
  )
