-- ===== src/Client/Framing.antt =====
-- The frames that carry the topics of a request, and their lengths.
use psrt.Prelude.{
  ℕ, ◌+◌, ◌<◌, ◌≡◌, ◌≢◌, refl, ap, ◌∙◌, true, false, List, [], ◌∷◌, ◌++◌, append_assoc, arith,
  length, length-append, All,
}
use psrt.Prelude.Bytes.{Bytes, has}
use psrt.Prelude.Split.{split_on, split_on_whole, split_on-append}
use psrt.Prelude.Words.{le32}
use psrt.Prelude.Utf8.{is_utf8}
use psrt.Wire.{op_publish, u32}
use psrt.Fault.{ok}
use psrt.Control.{utf8_parts, parse_topics}
use psrt.Client.Command.{publish, bulk_len, bulk_body, as_bytes}

-- A topic as a request can carry it.
abbrev pub IsTopic : Bytes → Type 0
IsTopic t = (t ≢ []) × (has 0 t ≡ false) × (is_utf8 t ≡ true)

utf8_parts-topic :
    (t : Bytes) (parts topics : List Bytes)
    → IsTopic t
    → utf8_parts parts ≡ ok topics
    → utf8_parts (t ∷ parts) ≡ ok (t ∷ topics)
unfolding utf8_parts
utf8_parts-topic [] parts topics (n, clean, valid) h = absurd (n refl)
utf8_parts-topic (b ∷ t) parts topics (n, clean, valid) h = ground (arith, valid, h)

parse_nothing : parse_topics [] ≡ ok []
unfolding parse_topics utf8_parts split_on
parse_nothing = refl

-- The topics of a bulk request come back from the block that carries them.
pub parse_topics-bulk_body :
    (topics : List Bytes) → All IsTopic topics → parse_topics (bulk_body topics) ≡ ok topics
unfolding parse_topics bulk_body
parse_topics-bulk_body [] h = parse_nothing
parse_topics-bulk_body (t ∷ topics) (h, hs) =
    rw (split_on-append 0 t (bulk_body topics) h.1) (
      utf8_parts-topic t (split_on 0 (bulk_body topics)) topics h
        (parse_topics-bulk_body topics hs))

pub parse_topics-single : (t : Bytes) → IsTopic t → parse_topics t ≡ ok (t ∷ [])
unfolding parse_topics
parse_topics-single t h =
    rw (split_on_whole 0 t h.1) (utf8_parts-topic t [] [] h (unfold utf8_parts in refl))

bulk_len-bulk_body :
    (len : ℕ) (topics : List Bytes)
    → len + length (bulk_body topics) < 4294967296
    → bulk_len len topics ≡ len + length (bulk_body topics)
unfolding bulk_len bulk_body
bulk_len-bulk_body len [] h = omega arith
bulk_len-bulk_body len (t ∷ topics) h =
    let cut = length-append t (0 ∷ bulk_body topics) in
    let head : u32 (len + u32 (u32 (length t) + 1)) ≡ len + (length t + 1) =
      omega (arith, cut, h) in
    rw head (
      bulk_len-bulk_body (len + (length t + 1)) topics (omega (arith, cut, h)) ∙ omega (arith, cut))

pub single_frame :
    (op : ℕ) (block : Bytes)
    → length block < 4294967296
    → op ∷ (le32 (u32 (length block)) ++ block) ≡ op ∷ (le32 (length block) ++ block)
single_frame op block h =
    let whole : u32 (length block) ≡ length block = omega (arith, h) in
    ap (λ n. op ∷ (le32 n ++ block)) whole

pub bulk_frame :
    (op : ℕ) (topics : List Bytes)
    → length (bulk_body topics) < 4294967296
    → op ∷ (le32 (bulk_len 0 topics) ++ bulk_body topics)
      ≡ op ∷ (le32 (length (bulk_body topics)) ++ bulk_body topics)
bulk_frame op topics h =
    ap (λ n. op ∷ (le32 n ++ bulk_body topics))
      (bulk_len-bulk_body 0 topics (omega (arith, h)) ∙ omega arith)

pub publish_frame :
    (priority : ℕ) (topic message : Bytes)
    → length (topic ++ 0 ∷ message) < 4294967296
    → as_bytes (publish priority topic message) ++ message
      ≡ op_publish ∷ priority ∷ (le32 (length (topic ++ 0 ∷ message)) ++ (topic ++ 0 ∷ message))
unfolding as_bytes le32
publish_frame priority topic message h =
    let cut = length-append topic (0 ∷ message) in
    let whole : u32 (u32 (u32 (length topic) + 1) + u32 (length message))
        ≡ length (topic ++ 0 ∷ message) =
      omega (arith, cut, h) in
    rw whole (
      ap (λ r. op_publish ∷ priority ∷ (le32 (length (topic ++ 0 ∷ message)) ++ r))
        (append_assoc topic (0 ∷ []) message))
