-- ===== src/Startup/Listening.antt =====
-- What `Listeners::create` listens on.
use mathlib.Core.Path.{subst}
use psrt.Prelude.{
  ◌≡◌, sym, ap, ◌∙◌, true, List, [], ◌∷◌, ◌++◌, arith, if◌then◌else◌, any, All, append-nil,
  append_assoc, Bool-cases, inl, inr,
}
use psrt.Prelude.Bytes.{Bytes, beq, beq_refl}
use psrt.Fault.{ok, Result-cases}
use psrt.Exec.{◌>>=◌}
use psrt.Client.Config.{is_unix_socket}
use psrt.Startup.{
  ConfigProto, to_list, format_path, Listeners, Host, Os, listen_unix, listen_streams, listen_udp,
  create,
}

-- The paths of the sockets of the file system, and the addresses of the others.
abbrev pub unix_paths : Bytes → List Bytes → List Bytes
unix_paths cdir [] = []
unix_paths cdir (s ∷ rest) =
    let paths = unix_paths cdir rest in
    if is_unix_socket s then format_path s cdir ∷ paths else paths

abbrev pub tcp_addresses : List Bytes → List Bytes
tcp_addresses [] = []
tcp_addresses (s ∷ rest) =
    let addresses = tcp_addresses rest in if is_unix_socket s then addresses else s ∷ addresses

module _ (os : Os) (cdir : Bytes) where
  -- The sockets are among those that are removed at the end.
  abbrev pub AreCleaned : List Bytes → Host → Type 0
  AreCleaned paths h = All (λ p. any (beq p) h.unix_sockets ≡ true) paths

  -- What a loop over addresses adds.
  pub record Listens (unix tcp udp : List Bytes) (h h' : Host) (l l' : Listeners) : Type 0 where
    pub unix_added : l'.unix ≡ l.unix ++ unix
    pub tcp_added : l'.tcp ≡ l.tcp ++ tcp
    pub udp_added : l'.udp ≡ l.udp ++ udp
    pub kept : (p : Bytes) → any (beq p) h.unix_sockets ≡ true → any (beq p) h'.unix_sockets ≡ true
    pub cleaned : AreCleaned unix h'

  nothing_added : (l : Listeners) (h : Host) → Listens [] [] [] h h l l
  nothing_added l h = record {
    unix_added = sym (append-nil l.unix);
    tcp_added = sym (append-nil l.tcp);
    udp_added = sym (append-nil l.udp);
    kept = λ p k. k;
    cleaned = tt;
  }

  listen_udp-Listens :
      (binds : List Bytes) (l : Listeners) (h : Host) {l' : Listeners}
      → (listen_udp os cdir binds l h).0 ≡ ok l'
      → Listens [] [] binds h (listen_udp os cdir binds l h).1 l l'
  unfolding listen_udp ◌>>=◌
  listen_udp-Listens [] l h {l'} e =
      let same : l ≡ l' = ground (arith, e) in
      subst (λ x. Listens [] [] [] h h l x) same (nothing_added l h)
  listen_udp-Listens (bind ∷ rest) l h {l'} e = elim (Result-cases (os.bind_udp bind)) [
    | inr (f, never) ↦ absurd (ground (arith, e, never))
    | inl (u, bound) ↦
        let r = listen_udp-Listens rest (record l { udp = l.udp ++ bind ∷ [] }) h (rw bound at e) in
        rw bound (record {
          unix_added = r.unix_added;
          tcp_added = r.tcp_added;
          udp_added = r.udp_added ∙ append_assoc l.udp (bind ∷ []) rest;
          kept = r.kept;
          cleaned = tt;
        })
  ]

  -- A socket that was bound is listed for the clean-up, beside those of before.
  listen_unix-listed :
      (path : Bytes) (h : Host) {u : Unit {0}}
      → (listen_unix os cdir path h).0 ≡ ok u
      → (any (beq path) (listen_unix os cdir path h).1.unix_sockets ≡ true)
        × ((p : Bytes)
            → any (beq p) h.unix_sockets ≡ true
            → any (beq p) (listen_unix os cdir path h).1.unix_sockets ≡ true)
  unfolding listen_unix ◌>>=◌
  listen_unix-listed path h e = elim (Result-cases (os.bind_unix path)) [
    | inr (f, never) ↦ absurd (ground (arith, e, never))
    | inl (u, bound) ↦ elim (Result-cases (os.metadata path)) [
      | inr (f, never) ↦ absurd (ground (arith, e, bound, never))
      | inl (v, seen) ↦ elim (Result-cases (os.set_permissions path 0o770)) [
        | inr (f, never) ↦ absurd (ground (arith, e, bound, seen, never))
        | inl (w, set) ↦
            rw (bound, seen, set) (ground (arith, beq_refl path), λ p k. ground (arith, k))
      ]
    ]
  ]

  listen_streams-Listens :
      (binds : List Bytes) (l : Listeners) (h : Host) {l' : Listeners}
      → (listen_streams os cdir binds l h).0 ≡ ok l'
      → Listens
          (unix_paths cdir binds)
          (tcp_addresses binds)
          []
          h
          (listen_streams os cdir binds l h).1
          l
          l'
  unfolding listen_streams ◌>>=◌
  listen_streams-Listens [] l h {l'} e =
      let same : l ≡ l' = ground (arith, e) in
      subst (λ x. Listens [] [] [] h h l x) same (nothing_added l h)
  listen_streams-Listens (bind ∷ rest) l h {l'} e = elim (Bool-cases (is_unix_socket bind)) [
    | inl local ↦
        let path = format_path bind cdir in
        elim (Result-cases (listen_unix os cdir path h).0) [
          | inr (f, never) ↦ absurd (ground (arith, e, local, never))
          | inl (u, bound) ↦
              let (own, old) = listen_unix-listed path h bound in
              let r =
                listen_streams-Listens rest (record l { unix = l.unix ++ path ∷ [] })
                  (listen_unix os cdir path h).1 (rw (local, bound) at e) in
              rw (local, bound, listen_streams)
                (record {
                  unix_added =
                      r.unix_added ∙ append_assoc l.unix (path ∷ []) (unix_paths cdir rest);
                  tcp_added = r.tcp_added;
                  udp_added = r.udp_added;
                  kept = λ p k. r.kept p (old p k);
                  cleaned = (r.kept path own, r.cleaned);
                })
        ]
    | inr remote ↦ elim (Result-cases (os.bind_tcp bind)) [
      | inr (f, never) ↦ absurd (ground (arith, e, remote, never))
      | inl (u, bound) ↦
          let r =
            listen_streams-Listens rest (record l { tcp = l.tcp ++ bind ∷ [] }) h
              (rw (remote, bound) at e) in
          rw (remote, bound, listen_streams)
            (record {
              unix_added = r.unix_added;
              tcp_added = r.tcp_added ∙ append_assoc l.tcp (bind ∷ []) (tcp_addresses rest);
              udp_added = r.udp_added;
              kept = r.kept;
              cleaned = r.cleaned;
            })
    ]
  ]

  -- If the listeners are created, then there is a socket of the file system for each address of
  -- `bind` that names one, in this order, at its formatted path, a TCP socket for each of the others,
  -- and a UDP socket for each address of `bind_udp`; and the files of all the sockets of the file
  -- system are among those that the clean-up removes.
  pub create_listens :
      (proto : ConfigProto) (h : Host) {l : Listeners}
      → (create os cdir proto h).0 ≡ ok l
      → (l.unix ≡ unix_paths cdir (to_list proto.bind))
        × (l.tcp ≡ tcp_addresses (to_list proto.bind))
        × (l.udp ≡ to_list proto.bind_udp)
        × AreCleaned l.unix (create os cdir proto h).1
  unfolding create ◌>>=◌
  create_listens proto h {l} e =
      let none_yet : Listeners = record { tcp = []; udp = []; unix = [] } in
      let streams = listen_streams os cdir (to_list proto.bind) none_yet h in
      elim (Result-cases streams.0) [
        | inr (f, never) ↦ absurd (ground (arith, e, never))
        | inl (between, opened) ↦
            let r = listen_streams-Listens (to_list proto.bind) none_yet h opened in
            let q =
              listen_udp-Listens (to_list proto.bind_udp) between streams.1 (rw opened at e) in
            let unix : l.unix ≡ unix_paths cdir (to_list proto.bind) =
              q.unix_added ∙ append-nil between.unix ∙ r.unix_added in
            (
              unix,
              q.tcp_added ∙ append-nil between.tcp ∙ r.tcp_added,
              q.udp_added ∙ ap (λ u. u ++ to_list proto.bind_udp) r.udp_added,
              rw (opened, unix)
                  (cleaned_later (unix_paths cdir (to_list proto.bind)) streams.1
                    (listen_udp os cdir (to_list proto.bind_udp) between streams.1).1 q.kept
                    r.cleaned),
            )
      ]
    where
      cleaned_later :
          (paths : List Bytes) (a b : Host)
          → ((p : Bytes) → any (beq p) a.unix_sockets ≡ true → any (beq p) b.unix_sockets ≡ true)
          → AreCleaned paths a
          → AreCleaned paths b
      cleaned_later [] a b kept c = tt
      cleaned_later (p ∷ paths) a b kept (own, c) = (kept p own, cleaned_later paths a b kept c)
