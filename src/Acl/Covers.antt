-- ===== src/Acl/Covers.antt =====
-- What a mask means: a relation between the chunks of a mask and the parts of a path, with no
-- order of tests in it. `PathMask::matches_split` decides it.
use psrt.Prelude.{
  ◌≡◌, refl, ◌↔◌, ◌⊎◌, inl, inr, Bool, true, false, not, ◌&&◌, Option, none, some, List, [], ◌∷◌,
  arith, Bool-cases, if◌then◌else◌, Exists, here, there, any,
}
use psrt.Prelude.Bytes.{Bytes, beq, beq→eq, beq_iff}
use psrt.Prelude.Split.{split_on}
use psrt.Topic.{slash}
use psrt.Acl.{
  PathMask, PathMaskList, hash, plus, is_str_any, is_str_wildcard, matches_chunks, matches_split,
  matches,
}

pub data Covers : List Bytes → List Bytes → Type 0 where
  done : Covers [] []
  rest : {m p : Bytes} {ms ps : List Bytes} → m ≡ hash → Covers (m ∷ ms) (p ∷ ps)
  level : {m p : Bytes} {ms ps : List Bytes} → m ≡ plus → Covers ms ps → Covers (m ∷ ms) (p ∷ ps)
  same : {m p : Bytes} {ms ps : List Bytes} → p ≡ m → Covers ms ps → Covers (m ∷ ms) (p ∷ ps)

-- The mask `#` alone covers every path.
abbrev pub CoversPath : PathMask → Bytes → Type 0
CoversPath mask path = elim mask.chunks [ none ↦ Unit | some ms ↦ Covers ms (split_on slash path) ]

pub any-of_hash : {m : Bytes} → m ≡ hash → is_str_any m ≡ true
unfolding is_str_any
any-of_hash {m} e = (beq_iff m hash).1 e

pub hash-of_any : (m : Bytes) → is_str_any m ≡ true → m ≡ hash
unfolding is_str_any
hash-of_any m h = beq→eq m hash h

wildcard-of_plus : {m : Bytes} → m ≡ plus → is_str_wildcard m ≡ true
unfolding is_str_wildcard
wildcard-of_plus {m} e = (beq_iff m plus).1 e

plus-of_wildcard : (m : Bytes) → is_str_wildcard m ≡ true → m ≡ plus
unfolding is_str_wildcard
plus-of_wildcard m h = beq→eq m plus h

matches_chunks_complete : {ms ps : List Bytes} → Covers ms ps → matches_chunks ps ms ≡ true
unfolding matches_chunks
matches_chunks_complete done = refl
matches_chunks_complete (rest e) = rw (any-of_hash e)
matches_chunks_complete (level {m} e c) =
    ground (arith, wildcard-of_plus e, matches_chunks_complete c)
matches_chunks_complete (same {m} {p} e c) =
    ground (arith, (beq_iff p m).1 e, matches_chunks_complete c)

-- The tests of one round that let a part pass its chunk.
passes :
    (m p : Bytes) (more : Bool)
    → (if is_str_any m
        then true
        else if not (is_str_wildcard m) && not (beq p m)
        then false
        else more)
      ≡ true
    → (m ≡ hash) ⊎ (((m ≡ plus) ⊎ (p ≡ m)) × (more ≡ true))
passes m p more h = elim (Bool-cases (is_str_any m)) [
  | inl a ↦ inl (hash-of_any m a)
  | inr not_any ↦ elim (Bool-cases (is_str_wildcard m)) [
    | inl w ↦ inr (inl (plus-of_wildcard m w), ground arith)
    | inr other ↦ elim (Bool-cases (beq p m)) [
      | inl e ↦ inr (inr (beq→eq p m e), ground arith)
      | inr e ↦ absurd (ground arith)
    ]
  ]
]

matches_chunks_sound : (ps ms : List Bytes) → matches_chunks ps ms ≡ true → Covers ms ps
unfolding matches_chunks
matches_chunks_sound [] [] h = done
matches_chunks_sound [] (m ∷ ms) h = cc
matches_chunks_sound (p ∷ ps) [] h = cc
matches_chunks_sound (p ∷ ps) (m ∷ ms) h = elim (passes m p (matches_chunks ps ms) h) [
  | inl e ↦ rest e
  | inr (inl e, more) ↦ level e (matches_chunks_sound ps ms more)
  | inr (inr e, more) ↦ same e (matches_chunks_sound ps ms more)
]

-- The loop of `matches_split` answers true exactly where the chunks cover the parts.
pub matches_chunks_iff : (ps ms : List Bytes) → (matches_chunks ps ms ≡ true) ↔ Covers ms ps
matches_chunks_iff ps ms = (matches_chunks_sound ps ms, matches_chunks_complete)

matches_option_iff :
    (chunks : Option (List Bytes)) (path : Bytes)
    → (matches_split (record { chunks = chunks }) (split_on slash path) ≡ true)
      ↔ CoversPath (record { chunks = chunks }) path
unfolding matches_split
matches_option_iff none path = (λ h. tt, λ h. refl)
matches_option_iff (some ms) path = matches_chunks_iff (split_on slash path) ms

pub matches_split_iff :
    (mask : PathMask) (path : Bytes)
    → (matches_split mask (split_on slash path) ≡ true) ↔ CoversPath mask path
matches_split_iff mask path = matches_option_iff mask.chunks path

any-Exists :
    (path : Bytes) (masks : List PathMask)
    → any (λ mask. matches_split mask (split_on slash path)) masks ≡ true
    → Exists (λ mask. CoversPath mask path) masks
any-Exists path [] h = cc
any-Exists path (m ∷ masks) h = elim (Bool-cases (matches_split m (split_on slash path))) [
  | inl yes_here ↦ here ((matches_split_iff m path).0 yes_here)
  | inr not_here ↦ there (any-Exists path masks (ground arith))
]

any-of_Exists :
    (path : Bytes) (masks : List PathMask)
    → Exists (λ mask. CoversPath mask path) masks
    → any (λ mask. matches_split mask (split_on slash path)) masks ≡ true
any-of_Exists path [] c = elim c [ ]
any-of_Exists path (m ∷ masks) (here c) = ground (arith, (matches_split_iff m path).1 c)
any-of_Exists path (m ∷ masks) (there c) = ground (arith, any-of_Exists path masks c)

-- A mask list lets a path pass exactly if one of its masks covers the parts of the path.
pub matches_iff :
    (l : PathMaskList) (path : Bytes)
    → (matches l path ≡ true) ↔ Exists (λ mask. CoversPath mask path) l.path_masks
unfolding matches
matches_iff l path = (any-Exists path l.path_masks, any-of_Exists path l.path_masks)
