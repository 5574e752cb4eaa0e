-- ===== src/Acl/Lists.antt =====
-- Parsing a list of masks, and access lists.
use psrt.Prelude.{
  ◌≡◌, refl, ap, inl, inr, Bool, true, false, ◌||◌, Option, none, some, List, [], ◌∷◌, arith,
  Bool-cases, any,
}
use psrt.Prelude.Bytes.{Bytes, beq_iff}
use psrt.Prelude.Split.{split_on}
use psrt.Fault.{ok, err, >>=-eq-ok}
use psrt.Topic.{slash}
use psrt.Acl.{
  PathMask, PathMaskList, chunks_eq, options_eq, mask_eq, insert_mask, matches_split, matches,
  parse_mask, parse_into, from_str_list,
}

chunks_eq→eq : (cs ds : List Bytes) → chunks_eq cs ds ≡ true → cs ≡ ds
unfolding chunks_eq
chunks_eq→eq [] [] h = refl
chunks_eq→eq [] (d ∷ ds) h = cc
chunks_eq→eq (c ∷ cs) [] h = cc
chunks_eq→eq (c ∷ cs) (d ∷ ds) h = ground (arith, (beq_iff c d).0, chunks_eq→eq cs ds)

options_eq→eq : (cs ds : Option (List Bytes)) → options_eq cs ds ≡ true → cs ≡ ds
unfolding options_eq
options_eq→eq none none h = refl
options_eq→eq none (some ds) h = cc
options_eq→eq (some cs) none h = cc
options_eq→eq (some cs) (some ds) h = ap some (chunks_eq→eq cs ds h)

mask_eq→eq : (m n : PathMask) → mask_eq m n ≡ true → m ≡ n
unfolding mask_eq
mask_eq→eq m n h = ap (λ cs. record { chunks = cs }) (options_eq→eq m.chunks n.chunks h)

any-of_equal :
    (test : PathMask → Bool) (mask : PathMask) (masks : List PathMask)
    → any (mask_eq mask) masks ≡ true
    → test mask ≡ true
    → any test masks ≡ true
any-of_equal test mask [] h t = cc
any-of_equal test mask (m ∷ masks) h t = elim (Bool-cases (mask_eq mask m)) [
  | inl e ↦ ground (arith, ap test (mask_eq→eq mask m e))
  | inr n ↦ ground (arith, any-of_equal test mask masks (ground arith) t)
]

-- Inserting a mask adds its own answer, whether the set held an equal mask or not.
pub any-insert_mask :
    (test : PathMask → Bool) (mask : PathMask) (masks : List PathMask)
    → any test (insert_mask mask masks) ≡ (test mask || any test masks)
unfolding insert_mask
any-insert_mask test mask masks = elim (Bool-cases (any (mask_eq mask) masks)) [
  | inl old ↦ ground (arith, any-of_equal test mask masks old)
  | inr new ↦ rw new
]

-- Does the mask that this text stands for match the path?
abbrev pub text_matches : Bytes → Bytes → Bool
text_matches path s = elim (parse_mask s) [
  | ok mask ↦ matches_split mask (split_on slash path)
  | err e ↦ false
]

parse_into-matches :
    (path : Bytes) (ss : List Bytes) (masks : List PathMask) {out : List PathMask}
    → parse_into ss masks ≡ ok out
    → any (λ mask. matches_split mask (split_on slash path)) out
      ≡ (any (text_matches path) ss || any (λ mask. matches_split mask (split_on slash path)) masks)
unfolding parse_into
parse_into-matches path [] masks h = ground arith
parse_into-matches path (s ∷ ss) masks {out} h =
    let (mask, parsed, later) = >>=-eq-ok (parse_mask s) _ h in
    ground (
      arith,
      parsed,
      parse_into-matches path ss (insert_mask mask masks) later,
      any-insert_mask (λ m. matches_split m (split_on slash path)) mask masks,
    )

-- A list that was parsed from mask texts lets a path pass exactly if one of the texts, parsed
-- alone, matches it: neither the order of the set nor the dropping of equal masks shows.
pub from_str_list-matches :
    (ss : List Bytes) {l : PathMaskList} (path : Bytes)
    → from_str_list ss ≡ ok l
    → matches l path ≡ any (text_matches path) ss
unfolding from_str_list matches
from_str_list-matches ss path h =
    let (out, parsed, made) = >>=-eq-ok (parse_into ss []) _ h in
    ground (arith, made, parse_into-matches path ss [] parsed)
