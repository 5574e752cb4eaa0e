-- ===== src/Topic.antt =====
-- src/pubsub.rs: `prepare_topic` and `TOPIC_INVALID_SYMBOLS`.
pub mod Squeeze
pub mod Laws
use psrt.Prelude.{
  ℕ, zero, suc, ◌+◌, Bool, true, false, ◌&&◌, ◌||◌, [], ◌∷◌, ltb, ◌==◌, if◌then◌else◌, length,
}
use psrt.Prelude.Bytes.{Bytes, has}
use psrt.Fault.{Result, ok, err, error_invalid_data, text}

abbrev pub slash : ℕ
slash = b'/'

-- `topic.contains("//")`.
unfoldable pub contains_double : Bytes → Bool
contains_double [] = false
contains_double (x ∷ []) = false
contains_double (x ∷ y ∷ r) = (x == slash && y == slash) || contains_double (y ∷ r)

-- `topic.replace("//", "/")`: the matches are taken from the left and do not overlap.
unfoldable pub replace_double : Bytes → Bytes
replace_double [] = []
replace_double (x ∷ []) = x ∷ []
replace_double (x ∷ y ∷ r) = elim (x == slash && y == slash) [
  | true ↦ slash ∷ replace_double r
  | false ↦ x ∷ replace_double (y ∷ r)
]

-- The `while` loop, with at most `fuel` rounds.
unfoldable pub collapse : ℕ → Bytes → Bytes
unfolding contains_double replace_double
collapse zero t = t
collapse (suc fuel) t = elim (contains_double t) [
  | true ↦ collapse fuel (replace_double t)
  | false ↦ t
]

-- `if result.starts_with('/') { result = result[1..] }`.
unfoldable pub strip_slash : Bytes → Bytes
strip_slash [] = []
strip_slash (x ∷ r) = if x == slash then r else x ∷ r

-- `result.matches('/').count()`.
unfoldable pub count_slashes : Bytes → ℕ
count_slashes [] = 0
count_slashes (x ∷ r) = (if x == slash then 1 else 0) + count_slashes r

-- `max_depth` is the static MAX_TOPIC_DEPTH. Every round of the loop shortens the topic, so its
-- length is enough fuel.
unfoldable pub prepare_topic : ℕ → Bytes → Result Bytes
unfolding collapse strip_slash count_slashes
prepare_topic max_depth topic =
    let result = strip_slash (collapse (length topic) topic) in
    if ltb max_depth (count_slashes result)
    then err (error_invalid_data (text "the topic is too deep" ∷ []))
    else ok result

-- `topic.contains(TOPIC_INVALID_SYMBOLS)`.
unfoldable pub has_invalid_symbols : Bytes → Bool
unfolding has
has_invalid_symbols t = has b'#' t || has b'+' t
