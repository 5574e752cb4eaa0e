-- ===== src/Tests/Texts.antt =====
-- Topics, masks and UTF-8 texts.
use psrt.Acl.Yaml.{
  Value, string, scalar, sequence, deserialize, serialize, visit_seq, deserialize-serialize,
}
use psrt.Prelude.{
  map, none, ◌≡◌, ◌↔◌, refl, true, false, some, List, [], ◌∷◌, any, Exists, ltb, if◌then◌else◌,
}
use psrt.Prelude.Bytes.{Bytes, codes}
use psrt.Prelude.Utf8.{is_utf8}
use psrt.Fault.{ok, err, error_invalid_data, text}
use psrt.Topic.{prepare_topic, count_slashes, strip_slash}
use psrt.Topic.Squeeze.{squeeze}
use psrt.Topic.Laws.{IsPrepared, prepare_topic-eq-squeeze, prepare_topic-IsPrepared}
use psrt.Acl.{PathMask, PathMaskList, hash, plus, matches, parse_mask, from_str_list}
use psrt.Acl.Covers.{CoversPath, matches_iff}
use psrt.Acl.Lists.{text_matches, from_str_list-matches}

-- `é`, a lone continuation byte, an overlong form and a surrogate.
is_utf8_runs :
    (is_utf8 (0xc3 ∷ 0xa9 ∷ codes "a") ≡ true)
    × (is_utf8 (0xa9 ∷ []) ≡ false)
    × (is_utf8 (0xc0 ∷ 0xaf ∷ []) ≡ false)
    × (is_utf8 (0xed ∷ 0xa0 ∷ 0x80 ∷ []) ≡ false)
unfolding is_utf8
is_utf8_runs = (refl, refl, refl, refl)

abbrev messy : Bytes
messy = codes "//a//b/c"

messy_prepared : prepare_topic 2 messy ≡ ok (codes "a/b/c")
unfolding prepare_topic
messy_prepared = refl

prepare_topic-eq-squeeze_example : prepare_topic 1 messy ≡ (
    if ltb 1 (count_slashes (strip_slash (squeeze messy)))
    then err (error_invalid_data (text "the topic is too deep" ∷ []))
    else ok (strip_slash (squeeze messy)))
prepare_topic-eq-squeeze_example = prepare_topic-eq-squeeze 1 messy

prepare_topic-IsPrepared_example : IsPrepared 2 messy (codes "a/b/c")
prepare_topic-IsPrepared_example = prepare_topic-IsPrepared 2 messy messy_prepared

abbrev sensors : List Bytes
sensors = codes "sensors/+/temp" ∷ codes "logs/#" ∷ codes "logs/#" ∷ []

abbrev sensor_masks : PathMaskList
sensor_masks = record {
  path_masks =
      record { chunks = some (codes "logs" ∷ hash ∷ []) }
      ∷ record { chunks = some (codes "sensors" ∷ plus ∷ codes "temp" ∷ []) }
      ∷ [];
}

sensors_parsed : from_str_list sensors ≡ ok sensor_masks
unfolding from_str_list
sensors_parsed = refl

from_str_list-matches_example :
    matches sensor_masks (codes "sensors/7/temp")
    ≡ any (text_matches (codes "sensors/7/temp")) sensors
from_str_list-matches_example =
    from_str_list-matches sensors (codes "sensors/7/temp") sensors_parsed

matches_iff_example :
    (matches sensor_masks (codes "logs/a/b") ≡ true)
    ↔ Exists (λ mask. CoversPath mask (codes "logs/a/b")) sensor_masks.path_masks
matches_iff_example = matches_iff sensor_masks (codes "logs/a/b")

abbrev cut_mask : PathMask
cut_mask = record { chunks = some (codes "a" ∷ hash ∷ []) }

cut_mask_parsed : parse_mask (codes "a/#/b") ≡ ok cut_mask
unfolding parse_mask
cut_mask_parsed = refl

-- The list `sensors` as a sequence, read and written.
abbrev sensor_list : PathMaskList
sensor_list = record {
  path_masks =
      record { chunks = some (codes "sensors" ∷ plus ∷ codes "temp" ∷ []) }
      ∷ record { chunks = some (codes "logs" ∷ hash ∷ []) }
      ∷ [];
}

abbrev sensors_value : Value
sensors_value = sequence (map string sensors)

sensors_read : deserialize sensors_value ≡ some sensor_list
unfolding deserialize visit_seq
sensors_read = refl

deserialize-serialize_example :
    (again : PathMaskList) × (deserialize (serialize sensor_list) ≡ some again)
    × ((path : Bytes) → matches again path ≡ matches sensor_list path)
deserialize-serialize_example = deserialize-serialize sensors_value sensors_read

no_empty_mask : deserialize (scalar (string [])) ≡ none
unfolding deserialize
no_empty_mask = refl
