-- ===== src/Udp/Authentic.antt =====
-- Who a UDP packet comes from, and what its login is allowed.
use psrt.Prelude.{
  ◌≡◌, ◌⊎◌, refl, Bool, true, false, Option, none, some, [], ◌∷◌, arith, Bool-cases, Option-cases,
  inl, inr,
}
use mathlib.Core.Path.{subst}
use psrt.Prelude.Bytes.{Bytes}
use psrt.Prelude.Split.{splitn2}
use psrt.Fault.{Error, ok, Result-cases, from_utf8}
use psrt.Topic.{prepare_topic, has_invalid_symbols}
use psrt.Acl.{Acl, get_acl, allow_write}
use psrt.Server.{Settings}
use psrt.Keys.{Crypto, verify, EncryptionType, need_decrypt, auth_and_decr}
use psrt.Udp.{
  Reply, good, bad, with_ack, authorize, admit, packet_head, open_encrypted, open_plain,
  open_packet,
}
use psrt.Guards.{Guards, user_of}

pub Reply-cases :
    {A : Type 0} (r : Reply A)
    → ((a : A) × (r ≡ good a)) ⊎ ((e : Error) × ((ack : Bool) × (r ≡ bad e ack)))
Reply-cases (good a) = inl (a, refl)
Reply-cases (bad e ack) = inr (e, (ack, refl))

module _ (C : Crypto) (cfg : Settings) (guards : Guards) where
  -- How a packet without a password came about: it was decrypted with the key of its login. One with
  -- a password has the right one, or is anonymous where that is allowed.
  pub data Authentic (login : Bytes) : Option Bytes → Type 0 where
    decrypted : Authentic login none
    anonymous :
        {password : Bytes}
        → cfg.allow_anonymous ≡ true
        → login ≡ []
        → password ≡ []
        → Authentic login (some password)
    verified :
        {password : Bytes}
        → verify C guards.password_db login password ≡ true
        → Authentic login (some password)

  authorize-Authentic :
      (login : Bytes) (password : Option Bytes) (ack : Bool)
      → authorize C cfg guards login password ack ≡ good tt
      → Authentic login password
  unfolding authorize
  authorize-Authentic login none ack h = decrypted
  authorize-Authentic [] (some []) ack h = elim (Bool-cases cfg.allow_anonymous) [
    | inl sure ↦ anonymous sure refl refl
    | inr never ↦ absurd (ground (arith, h, never))
  ]
  authorize-Authentic [] (some (c ∷ password)) ack h =
      elim (Bool-cases (verify C guards.password_db [] (c ∷ password))) [
        | inl sure ↦ verified sure
        | inr never ↦ absurd (ground (arith, h, never))
      ]
  authorize-Authentic (c ∷ login) (some password) ack h =
      elim (Bool-cases (verify C guards.password_db (c ∷ login) password)) [
        | inl sure ↦ verified sure
        | inr never ↦ absurd (ground (arith, h, never))
      ]

  -- What `admit` let pass.
  pub record Admitted (login : Bytes) (password : Option Bytes) (name topic : Bytes) : Type 0 where
    pub authentic : Authentic login password
    pub acl : Acl
    pub listed : get_acl guards.acl_db (user_of login) ≡ some acl
    pub prepared : prepare_topic cfg.max_topic_depth name ≡ ok topic
    pub plain : has_invalid_symbols topic ≡ false
    pub allowed : allow_write acl topic ≡ true

  pub admit-Admitted :
      (login : Bytes) (password : Option Bytes) (ack : Bool) (name : Bytes) {topic : Bytes}
      → admit C cfg guards login password ack name ≡ good topic
      → Admitted login password name topic
  unfolding admit
  admit-Admitted login password ack name {topic} h =
      elim (Reply-cases (authorize C cfg guards login password ack)) [
        | inr (e, (a, never)) ↦ absurd (ground (arith, h, never))
        | inl (u, sure) ↦ elim (Option-cases (get_acl guards.acl_db (user_of login))) [
          | inl never ↦ absurd (ground (arith, h, sure, never))
          | inr (acl, listed) ↦ elim (Result-cases (prepare_topic cfg.max_topic_depth name)) [
            | inr (e, never) ↦ absurd (ground (arith, h, sure, listed, never))
            | inl (t, prepared) ↦ elim (Bool-cases (has_invalid_symbols t)) [
              | inl never ↦ absurd (ground (arith, h, sure, listed, prepared, never))
              | inr plain ↦ elim (Bool-cases (allow_write acl t)) [
                | inr never ↦ absurd (ground (arith, h, sure, listed, prepared, plain, never))
                | inl allowed ↦
                    let same : t ≡ topic =
                      ground (arith, h, sure, listed, prepared, plain, allowed) in
                    record {
                      authentic = authorize-Authentic login password ack sure;
                      acl = acl;
                      listed = listed;
                      prepared = rw same at prepared;
                      plain = rw same at plain;
                      allowed = rw same at allowed;
                    }
              ]
            ]
          ]
        ]
      ]

  -- A block without a password was decrypted with the key of the packet's login.
  abbrev pub IsSealed : Bytes → Option Bytes → Bytes → Type 0
  IsSealed login (some password) block = Unit
  IsSealed login none block =
      (etp : EncryptionType) × ((coded : Bytes) × (auth_and_decr C guards.key_db coded
            (user_of login) etp
          ≡ ok block))

  open_encrypted-IsSealed :
      (etp : EncryptionType) (login : Bytes) (rest : Option Bytes) {l : Bytes} {p : Option Bytes}
      {block : Bytes}
      → open_encrypted C cfg guards etp login rest ≡ good (l, p, block)
      → IsSealed l p block
  unfolding open_encrypted
  open_encrypted-IsSealed etp login none h = absurd (ground (arith, h))
  open_encrypted-IsSealed etp login (some coded) {l} {p} {block} h =
      elim (Result-cases (auth_and_decr C guards.key_db coded (user_of login) etp)) [
        | inr (e, never) ↦ absurd (ground (arith, h, never))
        | inl (plain, opened) ↦
            let same_login : login ≡ l = ground (arith, h, opened) in
            let same_block : plain ≡ block = ground (arith, h, opened) in
            let no_password : none ≡ p = ground (arith, h, opened) in
            subst (λ q. IsSealed l q block) no_password
              (etp, (coded, rw (same_login, same_block) at opened))
      ]

  open_plain-IsSealed :
      (login : Bytes) (rest : Option Bytes) {l : Bytes} {p : Option Bytes} {block : Bytes}
      → open_plain C cfg guards login rest ≡ good (l, p, block)
      → IsSealed l p block
  unfolding open_plain
  open_plain-IsSealed login none h = absurd (ground (arith, h))
  open_plain-IsSealed login (some packed) {l} {p} {block} h =
      let parts = splitn2 0 packed in
      elim (Reply-cases (with_ack false (from_utf8 parts.0))) [
        | inr (e, (a, never)) ↦ absurd (ground (arith, h, never))
        | inl (password, valid) ↦ elim (Option-cases parts.1) [
          | inl never ↦ absurd (ground (arith, h, valid, never))
          | inr (data_block, there) ↦
              let a_password : some password ≡ p = ground (arith, h, valid, there) in
              subst (λ q. IsSealed l q block) a_password tt
        ]
      ]

  pub open_packet-IsSealed :
      (frame : Bytes) {l : Bytes} {p : Option Bytes} {block : Bytes}
      → open_packet C cfg guards frame ≡ good (l, p, block)
      → IsSealed l p block
  unfolding open_packet
  open_packet-IsSealed frame {l} {p} {block} h =
      elim (Reply-cases (packet_head C cfg guards frame)) [
        | inr (e, (a, never)) ↦ absurd (ground (arith, h, never))
        | inl ((etp, body), headed) ↦
            let parts = splitn2 0 body in
            elim (Reply-cases (with_ack false (from_utf8 parts.0))) [
              | inr (e, (a, never)) ↦ absurd (ground (arith, h, headed, never))
              | inl (login, valid) ↦ elim (Bool-cases (need_decrypt etp)) [
                | inl sealed ↦
                    open_encrypted-IsSealed etp login parts.1
                      (ground (arith, h, headed, valid, sealed))
                | inr plain ↦
                    open_plain-IsSealed login parts.1 (ground (arith, h, headed, valid, plain))
              ]
            ]
      ]
