-- ===== src/Keys/LastLine.antt =====
-- Which line of the password file decides about a login.
use psrt.Prelude.{
  ◌≡◌, refl, sym, ◌∙◌, ◌↔◌, ◌⊎◌, true, none, some, List, [], ◌∷◌, arith, All, Bool-cases,
  Option-cases, inl, inr,
}
use psrt.Prelude.Bytes.{Bytes, beq, beq_iff, beq_refl}
use psrt.Prelude.Assoc.{Assoc, lookup, lookup-insert}
use psrt.Fault.{ok, Result-cases}
use psrt.Keys.{Crypto, Passwords, verify, verify_hash}
use psrt.Keys.Passwords.{trim, lines, parse_line, insert_entry, load_lines, reload_passwords}

-- The line names the login, with this hash.
abbrev pub Names : Bytes → Bytes → Bytes → Type 0
Names login hash line = parse_line line ≡ some (login, hash)

-- The last line that names the login has this hash.
pub data LastNames (login hash : Bytes) : List Bytes → Type 0 where
  last :
      {line : Bytes} {rest : List Bytes}
      → Names login hash line
      → ((h : Bytes) → All (λ l. ¬ Names login h l) rest)
      → LastNames login hash (line ∷ rest)
  later :
      {line : Bytes} {rest : List Bytes}
      → LastNames login hash rest
      → LastNames login hash (line ∷ rest)

-- No line names the login, so the map decides.
abbrev Unnamed : Bytes → List Bytes → Type 0
Unnamed login rest = (h : Bytes) → All (λ l. ¬ Names login h l) rest

lookup-insert_entry-other :
    (login : Bytes) (line : Bytes) (m : Assoc Bytes)
    → ((h : Bytes) → ¬ Names login h line)
    → lookup login (insert_entry (parse_line line) m) ≡ lookup login m
lookup-insert_entry-other login line m unnamed = elim (Option-cases (parse_line line)) [
  | inl e ↦ rw e refl
  | inr ((l, h), e) ↦ elim (Bool-cases (beq l login)) [
    | inr n ↦ rw e (lookup-insert l login h m ∙ (rw n refl))
    | inl same ↦ absurd (unnamed h (ground (arith, e, beq_iff l login, same)))
  ]
]

lookup-load_lines-Unnamed :
    (login : Bytes) (rest : List Bytes) (m : Assoc Bytes)
    → Unnamed login rest
    → lookup login (load_lines rest m) ≡ lookup login m
unfolding load_lines
lookup-load_lines-Unnamed login [] m u = refl
lookup-load_lines-Unnamed login (line ∷ rest) m u =
    lookup-load_lines-Unnamed login rest (insert_entry (parse_line line) m) (λ h. (u h).1)
    ∙ lookup-insert_entry-other login line m (λ h. (u h).0)

lookup-load_lines-last :
    (login hash : Bytes) (rest : List Bytes) (m : Assoc Bytes)
    → LastNames login hash rest
    → lookup login (load_lines rest m) ≡ some hash
unfolding load_lines
lookup-load_lines-last login hash [] m l = elim l [ ]
lookup-load_lines-last login hash (line ∷ rest) m (last named unnamed) =
    lookup-load_lines-Unnamed login rest (insert_entry (parse_line line) m) unnamed
    ∙ (rw named (lookup-insert login login hash m ∙ (rw (beq_refl login) refl)))
lookup-load_lines-last login hash (line ∷ rest) m (later l) =
    lookup-load_lines-last login hash rest (insert_entry (parse_line line) m) l

-- Some line names the login, or none does.
named_or_not :
    (login : Bytes) (rest : List Bytes)
    → ((hash : Bytes) × LastNames login hash rest) ⊎ Unnamed login rest
named_or_not login [] = inr (λ h. tt)
named_or_not login (line ∷ rest) = elim (named_or_not login rest) [
  | inl (hash, l) ↦ inl (hash, later l)
  | inr u ↦ elim (Option-cases (parse_line line)) [
    | inl e ↦ inr (λ h. (λ named. ground (arith, e, named), u h))
    | inr ((l, hash), e) ↦ elim (Bool-cases (beq l login)) [
      | inl same ↦ inl (hash, last (ground (arith, e, beq_iff l login, same)) u)
      | inr n ↦ inr (λ h. (λ named. ground (arith, e, named, n, beq_refl login), u h))
    ]
  ]
]

module _ (C : Crypto) where
  accepted :
      (password hash : Bytes)
      → verify_hash C (some hash) password ≡ true
      → C.bcrypt_verify password hash ≡ ok true
  accepted password hash h = elim (Result-cases (C.bcrypt_verify password hash)) [
    | inl (b, e) ↦ ground (arith, e, rw e at h)
    | inr (f, e) ↦ absurd (ground (arith, rw e at h))
  ]

  -- After the password file was read, a login is let in with a password exactly if some line of
  -- the file names the login, and bcrypt accepts the password for the hash of the last such line.
  pub reload_passwords-verify :
      (content : Bytes) (old : Passwords) (login password : Bytes)
      → (verify C (reload_passwords (some (ok content)) old).1 login password ≡ true) ↔ (
          (hash : Bytes) × LastNames login hash (lines (trim content))
          × (C.bcrypt_verify password hash ≡ ok true))
  unfolding reload_passwords verify
  reload_passwords-verify content old login password =
      elim (named_or_not login (lines (trim content))) [
        | inl (hash, l) ↦ rw (lookup-load_lines-last login hash (lines (trim content)) [] l) (
          λ h. (hash, l, accepted password hash h),
          λ (hash', l', h).
              let same : some hash ≡ some hash' =
                sym (lookup-load_lines-last login hash (lines (trim content)) [] l)
                ∙ lookup-load_lines-last login hash' (lines (trim content)) [] l' in
              ground (arith, same, h),
        )
        | inr u ↦
            let nobody : lookup login (load_lines (lines (trim content)) []) ≡ none =
              lookup-load_lines-Unnamed login (lines (trim content)) [] u in
            rw nobody (
              λ h. absurd (ground arith),
              λ (hash, l, h).
                  let found = lookup-load_lines-last login hash (lines (trim content)) [] l in
                  absurd (ground (arith, nobody, found)),
            )
      ]
