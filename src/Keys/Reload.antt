-- ===== src/Keys/Reload.antt =====
-- src/keys.rs: `Keys::reload`. Reading the file and parsing its YAML stand outside.
use psrt.Prelude.{
  ◌≡◌, refl, true, Option, none, some, [], ◌∷◌, arith, if◌then◌else◌, length, take, length-take,
  Bool-cases, inl, inr,
}
use mathlib.Core.Path.{subst}
use psrt.Prelude.Bytes.{Bytes, beq, beq_iff}
use psrt.Prelude.Assoc.{Assoc, lookup, insert, lookup-insert}
use psrt.Fault.{Result, ok, err, Result-cases}
use psrt.Acl.{AclDb, has_acl}
use psrt.Token.{Hex, token_from_str}
use psrt.Keys.{Key, Keys}

abbrev pub key_of_token : Bytes → Key
key_of_token token = record { cipher_aes_128 = take 16 token; cipher_aes_256 = token }

module _ (H : Hex) (acl_db : AclDb) where
  abbrev load_key : Bytes → Result Bytes → Assoc Key → Assoc Key
  load_key login (err e) key_map = key_map
  load_key login (ok token) key_map =
      if has_acl acl_db login then insert login (key_of_token token) key_map else key_map

  -- The loop: a key that does not parse or has no access list is left out.
  load_keys : Assoc Bytes → Assoc Key → Assoc Key
  unfolding token_from_str insert
  load_keys [] key_map = key_map
  load_keys ((login, k) ∷ keys) key_map =
      load_keys keys (load_key login (token_from_str H k) key_map)

  -- `none` is a database without a file; an error leaves the keys as they were.
  unfoldable pub reload_keys : Option (Result (Assoc Bytes)) → Keys → Result (Unit {0}) × Keys
  unfolding load_keys
  reload_keys none old = (ok tt, old)
  reload_keys (some (err e)) old = (err e, old)
  reload_keys (some (ok keys)) old = (ok tt, some (load_keys keys []))

  -- A key that AES can take, for a user that has an access list.
  pub record IsUsable (login : Bytes) (key : Key) : Type 0 where
    pub listed : has_acl acl_db login ≡ true
    pub size_128 : length key.cipher_aes_128 ≡ 16
    pub size_256 : length key.cipher_aes_256 ≡ 32
    pub same : key.cipher_aes_128 ≡ take 16 key.cipher_aes_256

  abbrev AreUsable : Assoc Key → Type 0
  AreUsable m = (login : Bytes) (key : Key) → lookup login m ≡ some key → IsUsable login key

  token-length : (k : Bytes) {token : Bytes} → token_from_str H k ≡ ok token → length token ≡ 32
  unfolding token_from_str
  token-length k {token} h = elim (Result-cases (H.decode k)) [
    | inl (bytes, e) ↦ ground (arith, h, e)
    | inr (f, e) ↦ absurd (ground (arith, h, e))
  ]

  load_key-AreUsable :
      (login : Bytes) (r : Result Bytes) (m : Assoc Key)
      → ((token : Bytes) → r ≡ ok token → length token ≡ 32)
      → AreUsable m
      → AreUsable (load_key login r m)
  load_key-AreUsable login (err e) m long h l key found = h l key found
  load_key-AreUsable login (ok token) m long h l key found =
      elim (Bool-cases (has_acl acl_db login)) [
        | inr never ↦ h l key (ground (arith, found, never))
        | inl listed ↦ elim (Bool-cases (beq login l)) [
          | inr other ↦
              h l key
                (ground (arith, found, listed, other, lookup-insert login l (key_of_token token) m))
          | inl own ↦
              let is_key : key_of_token token ≡ key =
                ground (arith, found, listed, own, lookup-insert login l (key_of_token token) m) in
              let is_login : login ≡ l = (beq_iff login l).0 own in
              let full = long token refl in
              subst (λ k. IsUsable l k) is_key
                (record {
                  listed = rw is_login at listed;
                  size_128 = length-take 16 token (omega (arith, full));
                  size_256 = full;
                  same = refl;
                })
        ]
      ]

  load_keys-AreUsable :
      (keys : Assoc Bytes) (m : Assoc Key) → AreUsable m → AreUsable (load_keys keys m)
  unfolding load_keys
  load_keys-AreUsable [] m h = h
  load_keys-AreUsable ((login, k) ∷ keys) m h =
      load_keys-AreUsable keys (load_key login (token_from_str H k) m)
        (load_key-AreUsable login (token_from_str H k) m (λ token e. token-length k e) h)

  -- Every key that a reload brings in belongs to a user with an access list, and has 16 bytes for
  -- AES-128, the first half of the 32 bytes for AES-256.
  pub reload_keys-IsUsable :
      (keys : Assoc Bytes) (old : Keys) {m : Assoc Key} (login : Bytes) {key : Key}
      → (reload_keys (some (ok keys)) old).1 ≡ some m
      → lookup login m ≡ some key
      → IsUsable login key
  unfolding reload_keys lookup
  reload_keys-IsUsable keys old {m} login {key} h found =
      let same : load_keys keys [] ≡ m = ground (arith, h) in
      load_keys-AreUsable keys [] empty login key (rw same found)
    where
      empty : AreUsable []
      empty l k e = cc
