-- ===== src/Stats/Access.antt =====
-- src/server.rs: who is let in by `stats::handler`.
use psrt.Prelude.{
  ◌≡◌, refl, ◌⊎◌, ◌↔◌, true, false, ◌&&◌, Option, none, some, [], ◌∷◌, ◌++◌, arith, if◌then◌else◌,
  Bool-cases, inl, inr,
}
use psrt.Prelude.Bytes.{Bytes, codes, beq, beq→eq, has}
use psrt.Prelude.Split.{splitn2-append}
use psrt.Prelude.Utf8.{is_utf8}
use psrt.Fault.{ok}
use psrt.Acl.{Acl, get_acl}
use psrt.Keys.{Crypto, verify}
use psrt.Guards.{Guards, user_of}
use psrt.PubSub.Submap.{SubMap}
use psrt.Stats.Status.{Observed, ServerStatus, get_status}
use psrt.Stats.Http.{
  Method, get_method, other_method, Request, Web, Credentials, refused, given, absent, status_ok,
  to_lowercase, is_basic, scheme_parts, decoded, credentials, admin_acl, authorized, unauthorized,
  page, answer, checked, handler,
}

-- The login of the password, or the user `_` if there is none, has the list of an administrator.
pub data MayAsk (C : Crypto) (guards : Guards) : Credentials → Type 0 where
  by_password :
      {login password : Bytes} (acl : Acl)
      → verify C guards.password_db login password ≡ true
      → get_acl guards.acl_db (user_of login) ≡ some acl
      → acl.admin ≡ true
      → MayAsk C guards (given login password)
  anonymous :
      (acl : Acl)
      → get_acl guards.acl_db (codes "_") ≡ some acl
      → acl.admin ≡ true
      → MayAsk C guards absent

abbrev pub IsPage : Bytes → Type 0
IsPage path = (path ≡ codes "/status") ⊎ (path ≡ codes "/chart.min.js") ⊎ (path ≡ codes "/")

admin_acl-listed :
    (o : Option Acl) → admin_acl o ≡ true → (acl : Acl) × (o ≡ some acl) × (acl.admin ≡ true)
admin_acl-listed none h = cc
admin_acl-listed (some acl) h = (acl, refl, h)

module _ (C : Crypto) (guards : Guards) where
  authorized-MayAsk : (c : Credentials) → authorized C guards c ≡ true → MayAsk C guards c
  unfolding authorized
  authorized-MayAsk (refused why) h = cc
  authorized-MayAsk (given login password) h =
      let (acl, listed, admin) =
        admin_acl-listed (get_acl guards.acl_db (user_of login)) (ground arith) in
      by_password acl (ground arith) listed admin
  authorized-MayAsk absent h =
      let (acl, listed, admin) = admin_acl-listed (get_acl guards.acl_db (codes "_")) h in
      anonymous acl listed admin

  MayAsk-authorized : {c : Credentials} → MayAsk C guards c → authorized C guards c ≡ true
  unfolding authorized
  MayAsk-authorized (by_password acl sure listed admin) = ground (arith, sure, listed, admin)
  MayAsk-authorized (anonymous acl listed admin) = ground (arith, listed, admin)

Method-cases : (m : Method) → (m ≡ get_method) ⊎ (m ≡ other_method)
Method-cases get_method = inl refl
Method-cases other_method = inr refl

module _ {Cluster : Type 0} where
  page-IsPage :
      (path : Bytes) (st : ServerStatus Cluster) → (page path st).status ≡ status_ok → IsPage path
  unfolding page
  page-IsPage path st h = ground (
    arith,
    beq→eq path (codes "/status"),
    beq→eq path (codes "/chart.min.js"),
    beq→eq path (codes "/"),
  )

  IsPage-page :
      (path : Bytes) (st : ServerStatus Cluster) → IsPage path → (page path st).status ≡ status_ok
  unfolding page beq
  IsPage-page path st (inl e) = rw e refl
  IsPage-page path st (inr (inl e)) = rw e refl
  IsPage-page path st (inr (inr e)) = rw e refl

module _ {Map Cluster : Type 0} (S : SubMap Map) (W : Web) (C : Crypto) (guards : Guards) where
  checked-ok :
      (c : Credentials) (path : Bytes) (o : Observed Map Cluster)
      → (checked S W C guards c path o).status ≡ status_ok
      → IsPage path × MayAsk C guards c
  unfolding checked
  checked-ok c path o h = elim (Bool-cases (authorized C guards c)) [
    | inl e ↦ (page-IsPage path (get_status S o) (rw e at h), authorized-MayAsk C guards c e)
    | inr n ↦ absurd (ground (arith, rw n at h))
  ]

  answer-ok :
      (c : Credentials) (path : Bytes) (o : Observed Map Cluster)
      → (answer S W C guards c path o).status ≡ status_ok
      → IsPage path × MayAsk C guards c
  answer-ok (refused why) path o h = absurd (ground arith)
  answer-ok (given login password) path o h = checked-ok (given login password) path o h
  answer-ok absent path o h = checked-ok absent path o h

  ok-answer :
      (c : Credentials) (path : Bytes) (o : Observed Map Cluster)
      → IsPage path
      → MayAsk C guards c
      → (answer S W C guards c path o).status ≡ status_ok
  unfolding checked
  ok-answer (refused why) path o p m = absurd (ground (arith, MayAsk-authorized C guards m))
  ok-answer (given login password) path o p m =
      rw (MayAsk-authorized C guards m) (IsPage-page path (get_status S o) p)
  ok-answer absent path o p m =
      rw (MayAsk-authorized C guards m) (IsPage-page path (get_status S o) p)

  -- The handler answers a request with status 200 exactly if its method is GET, its path is one
  -- of the three pages, and either the header carries a login whose password is right and whose
  -- access list is an administrator's, or it carries none and the user `_` is an administrator.
  pub handler_ok_iff :
      (req : Request) (o : Observed Map Cluster)
      → ((handler S W C guards req o).status ≡ status_ok) ↔ (
          (req.method ≡ get_method)
          × IsPage req.path
          × MayAsk C guards (credentials W req.authorization))
  unfolding handler
  handler_ok_iff req o = elim (Method-cases req.method) [
    | inl e ↦
        rw (e, handler)
          (
            λ h.
                let r = answer-ok (credentials W req.authorization) req.path o h in
                (refl, r.0, r.1),
            λ p. ok-answer (credentials W req.authorization) req.path o p.1 p.2,
          )
    | inr e ↦ rw (e, handler) (λ h. absurd (ground arith), λ p. absurd (ground (arith, p.0)))
  ]

has-to_lowercase : (s : Bytes) → has 32 s ≡ true → has 32 (to_lowercase s) ≡ true
unfolding has to_lowercase
has-to_lowercase [] h = cc
has-to_lowercase (x ∷ s) h = ground (arith, has-to_lowercase s)

is_basic-has : (scheme : Bytes) → is_basic scheme ≡ true → has 32 scheme ≡ false
unfolding is_basic has
is_basic-has scheme h = elim (Bool-cases (has 32 scheme)) [
  | inr n ↦ n
  | inl e ↦
      let text : to_lowercase scheme ≡ codes "basic" =
        beq→eq (to_lowercase scheme) (codes "basic") h in
      let blank : has 32 (to_lowercase scheme) ≡ true = has-to_lowercase scheme e in
      absurd (ground (arith, rw text at blank))
]

module _ (W : Web) where
  credentials_basic :
      (scheme code login password : Bytes)
      → is_basic scheme ≡ true
      → has 58 login ≡ false
      → is_utf8 (login ++ 58 ∷ password) ≡ true
      → W.to_str (scheme ++ 32 ∷ code) ≡ some (scheme ++ 32 ∷ code)
      → W.decode code ≡ ok (login ++ 58 ∷ password)
      → credentials W (some (scheme ++ 32 ∷ code)) ≡ given login password
  unfolding credentials scheme_parts decoded
  credentials_basic scheme code login password basic plain valid seen coded =
      rw
        (
          seen,
          splitn2-append 32 scheme code (is_basic-has scheme basic),
          basic,
          coded,
          valid,
          splitn2-append 58 login password plain,
        )
        refl

module _ {Map Cluster : Type 0} (S : SubMap Map) (W : Web) (C : Crypto) (guards : Guards) where
  -- A header with the scheme `basic` in any case and the encoded login and password, where the
  -- login holds no colon and both are UTF-8, is answered for this login and password: the page if
  -- the password is right and the login's list is an administrator's, and 401 if not.
  pub handler_basic :
      (scheme code login password path : Bytes) (o : Observed Map Cluster)
      → is_basic scheme ≡ true
      → has 58 login ≡ false
      → is_utf8 (login ++ 58 ∷ password) ≡ true
      → W.to_str (scheme ++ 32 ∷ code) ≡ some (scheme ++ 32 ∷ code)
      → W.decode code ≡ ok (login ++ 58 ∷ password)
      → handler S W C guards
          (record { method = get_method; path = path; authorization = some (scheme ++ 32 ∷ code) })
          o
        ≡ (if verify C guards.password_db login password
              && admin_acl (get_acl guards.acl_db (user_of login))
            then page path (get_status S o)
            else unauthorized)
  unfolding handler checked authorized
  handler_basic scheme code login password path o basic plain valid seen coded =
      rw (credentials_basic W scheme code login password basic plain valid seen coded) refl
