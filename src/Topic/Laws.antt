-- ===== src/Topic/Laws.antt =====
-- What `prepare_topic` promises of the topics that it lets through.
use psrt.Prelude.{
  ℕ, ◌≤◌, ◌≡◌, refl, ◌∙◌, true, false, List, [], ◌∷◌, arith, ltb, if◌then◌else◌, length,
}
use mathlib.Core.Path.{subst}
use psrt.Prelude.Bytes.{Bytes, is_empty}
use psrt.Prelude.Split.{split_on, split_on-ne-nil}
use psrt.Fault.{ok, err, error_invalid_data, text}
use psrt.Topic.{slash, contains_double, strip_slash, count_slashes, prepare_topic}
use psrt.Topic.Squeeze.{
  starts_slash, squeeze, squeeze-of_single, collapse-eq-squeeze, contains_double-squeeze,
}

-- The topic that is left if it is not too deep.
abbrev pub normal_form : Bytes → Bytes
normal_form t = strip_slash (squeeze t)

-- `prepare_topic` leaves one slash for each run of slashes, drops a leading one, and fails with
-- an invalid-data error exactly when more slashes than the limit are left.
pub prepare_topic-eq-squeeze :
    (max_depth : ℕ) (t : Bytes)
    → prepare_topic max_depth t ≡ (
        if ltb max_depth (count_slashes (strip_slash (squeeze t)))
        then err (error_invalid_data (text "the topic is too deep" ∷ []))
        else ok (strip_slash (squeeze t)))
unfolding prepare_topic
prepare_topic-eq-squeeze max_depth t = rw (collapse-eq-squeeze (length t) t (omega arith)) refl

single_strip_slash :
    (t : Bytes) → contains_double t ≡ false → contains_double (strip_slash t) ≡ false
unfolding contains_double strip_slash
single_strip_slash [] h = refl
single_strip_slash (x ∷ []) h = ground arith
single_strip_slash (x ∷ y ∷ r) h = ground arith

starts_slash-strip_slash :
    (t : Bytes) → contains_double t ≡ false → starts_slash (strip_slash t) ≡ false
unfolding contains_double strip_slash
starts_slash-strip_slash [] h = refl
starts_slash-strip_slash (x ∷ []) h = ground arith
starts_slash-strip_slash (x ∷ y ∷ r) h = ground arith

strip_slash-of_relative : (t : Bytes) → starts_slash t ≡ false → strip_slash t ≡ t
unfolding strip_slash
strip_slash-of_relative [] h = refl
strip_slash-of_relative (x ∷ r) h = ground arith

-- The non-empty names between the slashes.
abbrev nonempty : List Bytes → List Bytes
nonempty [] = []
nonempty (p ∷ ps) = if is_empty p then nonempty ps else p ∷ nonempty ps

pub segments : Bytes → List Bytes
segments t = nonempty (split_on slash t)

segments-strip_slash : (t : Bytes) → segments (strip_slash t) ≡ segments t
unfolding segments strip_slash split_on
segments-strip_slash [] = refl
segments-strip_slash (x ∷ r) = ground arith

-- The first part and the later ones, apart.
abbrev head_part : List Bytes → Bytes
head_part [] = []
head_part (p ∷ ps) = p

abbrev tail_parts : List Bytes → List Bytes
tail_parts [] = []
tail_parts (p ∷ ps) = ps

head_part-of_slash : (t : Bytes) → starts_slash t ≡ true → head_part (split_on slash t) ≡ []
unfolding split_on
head_part-of_slash [] h = refl
head_part-of_slash (x ∷ r) h = ground arith

-- The parts of the squeezed text are those of the text, up to empty parts after the first.
squeeze_parts :
    (t : Bytes)
    → (head_part (split_on slash (squeeze t)) ≡ head_part (split_on slash t))
      × (nonempty (tail_parts (split_on slash (squeeze t)))
          ≡ nonempty (tail_parts (split_on slash t)))
unfolding squeeze split_on
squeeze_parts [] = (refl, refl)
squeeze_parts (x ∷ r) =
    let (same_head, same_tail) = squeeze_parts r in
    ground (
      arith,
      same_head,
      same_tail,
      head_part-of_slash r,
      split_on-ne-nil slash r,
      split_on-ne-nil slash (squeeze r),
    )

nonempty-parts : (ps : List Bytes) → nonempty ps ≡ nonempty (head_part ps ∷ tail_parts ps)
nonempty-parts [] = refl
nonempty-parts (p ∷ ps) = refl

segments-squeeze : (t : Bytes) → segments (squeeze t) ≡ segments t
unfolding segments
segments-squeeze t =
    let (same_head, same_tail) = squeeze_parts t in
    ground (
      arith,
      same_head,
      same_tail,
      nonempty-parts (split_on slash (squeeze t)),
      nonempty-parts (split_on slash t),
    )

-- A prepared topic has no two slashes in a row and none in front, is not too deep, and names the
-- same non-empty segments as the topic that the client sent.
pub record IsPrepared (max_depth : ℕ) (sent topic : Bytes) : Type 0 where
  pub single : contains_double topic ≡ false
  pub relative : starts_slash topic ≡ false
  pub depth : count_slashes topic ≤ max_depth
  pub same_segments : segments topic ≡ segments sent

normal_form-IsPrepared :
    (max_depth : ℕ) (t : Bytes)
    → count_slashes (normal_form t) ≤ max_depth
    → IsPrepared max_depth t (normal_form t)
normal_form-IsPrepared max_depth t h = record {
  single = single_strip_slash (squeeze t) (contains_double-squeeze t);
  relative = starts_slash-strip_slash (squeeze t) (contains_double-squeeze t);
  depth = h;
  same_segments = segments-strip_slash (squeeze t) ∙ segments-squeeze t;
}

prepare_topic-inv :
    (max_depth : ℕ) (t : Bytes) {r : Bytes}
    → prepare_topic max_depth t ≡ ok r
    → (normal_form t ≡ r) × (count_slashes r ≤ max_depth)
prepare_topic-inv max_depth t h = ground (arith, prepare_topic-eq-squeeze max_depth t)

-- Every topic that `prepare_topic` accepts has no double slash and no leading slash, is within
-- the depth limit, and has the non-empty segments of the topic that was sent.
pub prepare_topic-IsPrepared :
    (max_depth : ℕ) (t : Bytes) {r : Bytes}
    → prepare_topic max_depth t ≡ ok r
    → IsPrepared max_depth t r
prepare_topic-IsPrepared max_depth t h =
    let (same, fits) = prepare_topic-inv max_depth t h in
    subst (λ x. IsPrepared max_depth t x) same (normal_form-IsPrepared max_depth t (rw same fits))

-- A topic that is in normal form and not too deep is accepted unchanged.
pub prepare_topic-of_prepared :
    (max_depth : ℕ) (t : Bytes)
    → contains_double t ≡ false
    → starts_slash t ≡ false
    → count_slashes t ≤ max_depth
    → prepare_topic max_depth t ≡ ok t
prepare_topic-of_prepared max_depth t single relative depth = ground (
  arith,
  prepare_topic-eq-squeeze max_depth t,
  squeeze-of_single t single,
  strip_slash-of_relative t relative,
)

-- Preparing a prepared topic once more changes nothing.
pub prepare_topic_idem :
    (max_depth : ℕ) (t : Bytes) {r : Bytes}
    → prepare_topic max_depth t ≡ ok r
    → prepare_topic max_depth r ≡ ok r
prepare_topic_idem max_depth t {r} h =
    let p = prepare_topic-IsPrepared max_depth t h in
    prepare_topic-of_prepared max_depth r p.single p.relative p.depth
