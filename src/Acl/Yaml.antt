-- ===== src/Acl/Yaml.antt =====
-- The serde traits of masks and mask lists in src/acl.rs. What lies outside this crate, the YAML
-- itself, is a value of the data model of serde.
use psrt.Prelude.{
  ◌≡◌, refl, ap, ◌∙◌, inl, inr, Bool, Option, none, some, List, [], ◌∷◌, arith, any, All,
  Bool-cases, map, Option-cases,
}
use psrt.Prelude.Bytes.{Bytes}
use psrt.Prelude.Split.{split_on}
use psrt.Fault.{Result, ok, err, Result-cases}
use psrt.Topic.{slash}
use mathlib.Core.Path.{subst}
use psrt.Acl.{
  PathMask, PathMaskList, parse_mask, show_mask, insert_mask, mask_eq, matches_split, matches,
}
use psrt.Acl.Lists.{any-insert_mask}
use psrt.Acl.Parse.{ReadsBack, parse_mask-show_mask}

-- A string, or anything else that is no sequence.
pub data Scalar : Type 0 where
  string : Bytes → Scalar
  no_string : Scalar

pub data Value : Type 0 where
  scalar : Scalar → Value
  sequence : List Scalar → Value

-- An error of a mask does not get out of the untagged enum, which reports that no variant fits.
abbrev without_error : Result PathMask → Option PathMask
without_error (err e) = none
without_error (ok mask) = some mask

-- `PathMaskVisitor`.
unfoldable pub visit : Scalar → Option PathMask
unfolding parse_mask
visit (string s) = without_error (parse_mask s)
visit no_string = none

-- A `HashSet` of masks.
abbrev add_mask : Option PathMask → Option (List PathMask) → Option (List PathMask)
add_mask none masks = none
add_mask (some mask) none = none
add_mask (some mask) (some masks) = some (insert_mask mask masks)

unfoldable pub visit_seq : List Scalar → Option (List PathMask)
unfolding visit insert_mask
visit_seq [] = some []
visit_seq (s ∷ rest) = add_mask (visit s) (visit_seq rest)

-- `PathMaskListYaml`.
pub data PathMaskListYaml : Type 0 where
  one : PathMask → PathMaskListYaml
  many : List PathMask → PathMaskListYaml

abbrev as_one : Option PathMask → Option PathMaskListYaml
as_one none = none
as_one (some mask) = some (one mask)

abbrev as_many : Option (List PathMask) → Option PathMaskListYaml
as_many none = none
as_many (some masks) = some (many masks)

-- The variants in order; a scalar is no set, and a sequence no mask.
unfoldable pub untagged : Value → Option PathMaskListYaml
unfolding visit visit_seq
untagged (scalar s) = as_one (visit s)
untagged (sequence v) = as_many (visit_seq v)

abbrev list_of : Option PathMaskListYaml → Option PathMaskList
list_of none = none
list_of (some (one mask)) = some (record { path_masks = mask ∷ [] })
list_of (some (many masks)) = some (record { path_masks = masks })

-- `impl Deserialize for PathMaskList`.
unfoldable pub deserialize : Value → Option PathMaskList
unfolding untagged
deserialize v = list_of (untagged v)

-- `impl Serialize for PathMaskList`.
unfoldable pub serialize : PathMaskList → Value
unfolding show_mask
serialize l = sequence (map (λ mask. string (show_mask mask)) l.path_masks)

visit-ReadsBack : (s : Scalar) {m : PathMask} → visit s ≡ some m → ReadsBack m
unfolding visit
visit-ReadsBack (string s) {m} e = elim (Result-cases (parse_mask s)) [
  | inl (mask, parsed) ↦
      let same : mask ≡ m = ground (arith, e, parsed) in
      parse_mask-show_mask s (parsed ∙ ap ok same)
  | inr (f, failed) ↦ absurd (ground (arith, e, failed))
]
visit-ReadsBack no_string e = cc

insert_mask-All :
    (P : PathMask → Type 0) (m : PathMask) (masks : List PathMask)
    → P m
    → All P masks
    → All P (insert_mask m masks)
unfolding insert_mask
insert_mask-All P m masks p ps = elim (Bool-cases (any (mask_eq m) masks)) [
  | inl old ↦ rw old ps
  | inr new ↦ rw new (p, ps)
]

visit_seq-ReadsBack :
    (v : List Scalar) {masks : List PathMask} → visit_seq v ≡ some masks → All ReadsBack masks
unfolding visit_seq
visit_seq-ReadsBack [] {masks} e =
    let empty : [] ≡ masks = ground (arith, e) in subst (All ReadsBack) empty tt
visit_seq-ReadsBack (s ∷ v) {masks} e = elim (Option-cases (visit s)) [
  | inl bad ↦ absurd (ground (arith, e, bad))
  | inr (m, good) ↦ elim (Option-cases (visit_seq v)) [
    | inl bad ↦ absurd (ground (arith, e, good, bad))
    | inr (rest, read) ↦
        let joined : insert_mask m rest ≡ masks = ground (arith, e, good, read) in
        subst (All ReadsBack) joined
          (insert_mask-All ReadsBack m rest (visit-ReadsBack s good) (visit_seq-ReadsBack v read))
  ]
]

-- The masks that their texts are read back as.
abbrev any_matches : Bytes → List PathMask → Bool
any_matches path masks = any (λ m. matches_split m (split_on slash path)) masks

visit-show_mask : (m : PathMask) (r : ReadsBack m) → visit (string (show_mask m)) ≡ some r.mask
unfolding visit
visit-show_mask m r = rw r.reads refl

record SeqReadsBack (masks : List PathMask) : Type 0 where
  again : List PathMask
  reads : visit_seq (map (λ m. string (show_mask m)) masks) ≡ some again
  agrees : (path : Bytes) → any_matches path again ≡ any_matches path masks

visit_seq-shown : (masks : List PathMask) → All ReadsBack masks → SeqReadsBack masks
unfolding visit_seq
visit_seq-shown [] tt = record { again = []; reads = refl; agrees = λ path. refl }
visit_seq-shown (m ∷ masks) (r, rs) =
    let rest = visit_seq-shown masks rs in
    record {
      again = insert_mask r.mask rest.again;
      reads = rw (visit-show_mask m r, rest.reads) refl;
      agrees = λ path.
          let inserted =
            any-insert_mask (λ n. matches_split n (split_on slash path)) r.mask rest.again in
          rw (inserted, r.agrees path, rest.agrees path) refl;
    }

deserialize-ReadsBack :
    (v : Value) {l : PathMaskList} → deserialize v ≡ some l → All ReadsBack l.path_masks
unfolding deserialize untagged
deserialize-ReadsBack (scalar s) {l} e = elim (Option-cases (visit s)) [
  | inl bad ↦ absurd (ground (arith, e, bad))
  | inr (m, good) ↦
      let single : record { path_masks = m ∷ [] } ≡ l = ground (arith, e, good) in
      subst (λ x. All ReadsBack x.path_masks) single (visit-ReadsBack s good, tt)
]
deserialize-ReadsBack (sequence v) {l} e = elim (Option-cases (visit_seq v)) [
  | inl bad ↦ absurd (ground (arith, e, bad))
  | inr (masks, good) ↦
      let list : record { path_masks = masks } ≡ l = ground (arith, e, good) in
      subst (λ x. All ReadsBack x.path_masks) list (visit_seq-ReadsBack v good)
]

-- A mask list that was deserialized, from one mask or from a sequence, and is serialized again, is
-- deserialized to a list that matches the same paths.
pub deserialize-serialize :
    (v : Value) {l : PathMaskList}
    → deserialize v ≡ some l
    → (again : PathMaskList) × (deserialize (serialize l) ≡ some again)
      × ((path : Bytes) → matches again path ≡ matches l path)
unfolding deserialize untagged serialize matches
deserialize-serialize v {l} e =
    let r = visit_seq-shown l.path_masks (deserialize-ReadsBack v e) in
    (record { path_masks = r.again }, rw r.reads refl, r.agrees)
