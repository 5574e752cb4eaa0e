-- ===== src/Acl/Parse.antt =====
-- Reading a mask back from the text that `Display` prints.
use psrt.Prelude.{
  ◌≡◌, ◌≢◌, refl, sym, ap, ◌∙◌, ◌⊎◌, inl, inr, true, false, some, List, [], ◌∷◌, arith, Bool-cases,
  if◌then◌else◌, All,
}
use mathlib.Core.Path.{subst}
use psrt.Prelude.Bytes.{Bytes, beq, has}
use psrt.Prelude.Split.{
  split_on, join, split_on-join, split_on-ne-nil, join-split_on, All-split_on, split_on_whole,
}
use psrt.Fault.{ok}
use psrt.Topic.{slash}
use psrt.Acl.{
  PathMask, new_any, hash, is_str_any, matches_chunks, matches_split, cut_after_any, parse_mask,
  show_mask,
}
use psrt.Acl.Covers.{any-of_hash, hash-of_any}

abbrev NoSlash : List Bytes → Type 0
NoSlash ps = All (λ p. has slash p ≡ false) ps

NoSlash-cut_after_any : (ps : List Bytes) → NoSlash ps → NoSlash (cut_after_any ps)
unfolding cut_after_any has
NoSlash-cut_after_any [] h = tt
NoSlash-cut_after_any (p ∷ ps) h = elim (Bool-cases (is_str_any p)) [
  | inl a ↦ rw a (refl, tt)
  | inr n ↦ rw n (h.0, NoSlash-cut_after_any ps h.1)
]

-- Cutting twice is cutting once.
cut_after_any_idem : (ps : List Bytes) → cut_after_any (cut_after_any ps) ≡ cut_after_any ps
unfolding cut_after_any
cut_after_any_idem [] = refl
cut_after_any_idem (p ∷ ps) = ground (arith, cut_after_any_idem ps, any-of_hash {m = hash} refl)

cut_after_any-ne-nil : (ps : List Bytes) → ps ≢ [] → cut_after_any ps ≢ []
unfolding cut_after_any
cut_after_any-ne-nil [] h = absurd (h refl)
cut_after_any-ne-nil (p ∷ ps) h = ground arith

-- Only an empty text is cut to one empty chunk.
empty-of_cut : (ps : List Bytes) → cut_after_any ps ≡ [] ∷ [] → ps ≡ [] ∷ []
unfolding cut_after_any
empty-of_cut [] h = cc
empty-of_cut (p ∷ []) h = ground arith
empty-of_cut (p ∷ q ∷ ps) h = ground (arith, cut_after_any-ne-nil (q ∷ ps))

-- The chunks of a parsed mask come back from its text.
split_on-join_cut :
    (s : Bytes)
    → split_on slash (join slash (cut_after_any (split_on slash s)))
      ≡ cut_after_any (split_on slash s)
split_on-join_cut s =
    go (cut_after_any (split_on slash s))
      (cut_after_any-ne-nil (split_on slash s) (split_on-ne-nil slash s))
      (NoSlash-cut_after_any (split_on slash s) (All-split_on slash s))
  where
    go : (ps : List Bytes) → ps ≢ [] → NoSlash ps → split_on slash (join slash ps) ≡ ps
    go [] n h = absurd (n refl)
    go (p ∷ ps) n h = split_on-join slash p ps h

join_cut-ne-nil : (s : Bytes) → s ≢ [] → join slash (cut_after_any (split_on slash s)) ≢ []
join_cut-ne-nil s n e =
    let one_empty : cut_after_any (split_on slash s) ≡ [] ∷ [] =
      sym (split_on-join_cut s) ∙ ap (split_on slash) e ∙ (unfold split_on in refl) in
    n (
      sym (join-split_on slash s)
      ∙ ap (join slash) (empty-of_cut (split_on slash s) one_empty)
      ∙ (unfold join in refl))

parse_nonempty :
    (j : Bytes)
    → j ≢ []
    → parse_mask j ≡ (
        if is_str_any j
        then ok new_any
        else ok (record { chunks = some (cut_after_any (split_on slash j)) }))
unfolding parse_mask
parse_nonempty [] n = absurd (n refl)
parse_nonempty (c ∷ j) n = refl

-- A mask of the one chunk `#` matches every path, as the mask `#` does.
any_path : (parts : List Bytes) → parts ≢ [] → matches_chunks parts (hash ∷ []) ≡ true
unfolding matches_chunks
any_path [] n = absurd (n refl)
any_path (p ∷ parts) n = ground (arith, any-of_hash {m = hash} refl)

-- The mask that the text of `m` is read back as.
pub record ReadsBack (m : PathMask) : Type 0 where
  pub mask : PathMask
  pub reads : parse_mask (show_mask m) ≡ ok mask
  pub agrees :
      (path : Bytes)
      → matches_split mask (split_on slash path) ≡ matches_split m (split_on slash path)
  pub equal : (mask ≡ m) ⊎ (m.chunks ≡ some (hash ∷ []))

new_any-ReadsBack : ReadsBack new_any
unfolding parse_mask show_mask is_str_any beq
new_any-ReadsBack = record { mask = new_any; reads = refl; agrees = λ path. refl; equal = inl refl }

cut-ReadsBack :
    (s : Bytes) → s ≢ [] → ReadsBack (record { chunks = some (cut_after_any (split_on slash s)) })
unfolding show_mask matches_split
cut-ReadsBack s n =
    let chunks = cut_after_any (split_on slash s) in
    let j = join slash chunks in
    let nonempty : j ≢ [] = join_cut-ne-nil s n in
    let parsed = parse_nonempty j nonempty in
    elim (Bool-cases (is_str_any j)) [
      | inl a ↦
          let one : chunks ≡ hash ∷ [] =
            sym (split_on-join_cut s)
            ∙ ap (split_on slash) (hash-of_any j a)
            ∙ split_on_whole slash hash (unfold has in refl) in
          record {
            mask = new_any;
            reads = ground (arith, parsed, a);
            agrees =
                λ path. sym (rw one (any_path (split_on slash path) (split_on-ne-nil slash path)));
            equal = inr (ap some one);
          }
      | inr other ↦ record {
        mask = record { chunks = some chunks };
        reads =
            ground
              (arith, parsed, other, split_on-join_cut s, cut_after_any_idem (split_on slash s));
        agrees = λ path. refl;
        equal = inl refl;
      }
    ]

-- A mask that was parsed is printed to a text that parses again: to an equal mask, or, if its
-- only chunk is `#`, to the mask `#`. Either way it matches the same paths.
pub parse_mask-show_mask : (s : Bytes) {m : PathMask} → parse_mask s ≡ ok m → ReadsBack m
unfolding parse_mask
parse_mask-show_mask [] h = cc
parse_mask-show_mask (c ∷ s) {m} h = elim (Bool-cases (is_str_any (c ∷ s))) [
  | inl a ↦ let e : new_any ≡ m = ground arith in subst ReadsBack e new_any-ReadsBack
  | inr other ↦
      let e : record { chunks = some (cut_after_any (split_on slash (c ∷ s))) } ≡ m =
        ground arith in
      subst ReadsBack e (cut-ReadsBack (c ∷ s) (cc))
]
