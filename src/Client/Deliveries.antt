-- ===== src/Client/Deliveries.antt =====
-- A message that the server pushes onto the data stream comes out of the client as it was published.
use psrt.Prelude.{
  ℕ, suc, ◌+◌, ◌<◌, ◌≡◌, refl, ap, ◌∙◌, true, false, none, [], ◌∷◌, ◌++◌, append_assoc, arith,
  length, length-append, drop, take-append, drop-suc-append,
}
use psrt.Prelude.Bytes.{Bytes, has}
use psrt.Prelude.Split.{position-append, truncate-split_off}
use psrt.Prelude.Words.{le32}
use psrt.Prelude.Utf8.{is_utf8}
use psrt.Wire.{response_ok, u32}
use psrt.Fault.{ok}
use psrt.Exec.{◌>>=◌}
use psrt.Comm.{Arrivals, reduce_timeout, read}
use psrt.Comm.Delivery.{at_hand, read_with_timeout-at_hand, read_frame-at_hand}
use psrt.Push.{packed_head}
use psrt.Client.Message.{from_split, from_position, from_buf}
use psrt.Client.Data.{DataStream, message_round, react, data_round}

-- The message that a frame of a topic, a zero byte and a body stands for.
pub from_buf-framed :
    (priority : ℕ) (topic body : Bytes)
    → has 0 topic ≡ false
    → is_utf8 topic ≡ true
    → from_buf (topic ++ 0 ∷ body) priority
      ≡ ok (record { priority = priority; topic = topic; body = body })
unfolding from_buf from_position from_split
from_buf-framed priority topic body clean valid =
    let buf = topic ++ 0 ∷ body in
    let one : length topic + 1 ≡ suc (length topic) = omega arith in
    let fits : length topic < length buf = omega (arith, length-append topic (0 ∷ body)) in
    rw (position-append 0 topic body clean) (
      rw
        (
          truncate-split_off (length topic) buf fits ∙ take-append topic (0 ∷ body),
          valid,
          ap (λ k. drop k buf) one ∙ drop-suc-append topic 0 body,
        )
        refl)

packed_head-frame :
    (priority : ℕ) (topic message : Bytes)
    → length (topic ++ 0 ∷ message) < 4294967296
    → packed_head priority topic message ++ message
      ≡ response_ok ∷ priority ∷ (le32 (length (topic ++ 0 ∷ message)) ++ (topic ++ 0 ∷ message))
unfolding packed_head le32
packed_head-frame priority topic message h =
    let cut = length-append topic (0 ∷ message) in
    let whole : u32 (u32 (length topic) + u32 (length message) + 1)
        ≡ length (topic ++ 0 ∷ message) =
      omega (arith, cut, h) in
    rw whole (
      ap (λ r. response_ok ∷ priority ∷ (le32 (length (topic ++ 0 ∷ message)) ++ r))
        (append_assoc topic (0 ∷ []) message))

-- The bytes that the server sends for a message, when they are there, make one round of the client's
-- loop hand the program that message, with its priority and its topic, and leave the bytes behind it
-- for the next round, if the topic is UTF-8 without zero bytes, topic and message are together
-- below 4 GiB, and the program still takes messages.
pub data_round-packed_head :
    (priority : ℕ) (topic message : Bytes) (later : Arrivals) (s : DataStream)
    → has 0 topic ≡ false
    → is_utf8 topic ≡ true
    → length (topic ++ 0 ∷ message) < 4294967296
    → s.is_open ≡ true
    → s.stream.input ≡ at_hand (packed_head priority topic message ++ message) later
    → data_round s ≡ (
      ok tt,
      record s {
        stream = record s.stream { input = later };
        delivered =
            s.delivered ++ record { priority = priority; topic = topic; body = message } ∷ [];
      },
    )
unfolding data_round react message_round read ◌>>=◌
data_round-packed_head priority topic message later s clean valid short is_on h =
    let frame = topic ++ 0 ∷ message in
    let rest = at_hand (le32 (length frame) ++ frame) later in
    let all = h ∙ ap (λ b. at_hand b later) (packed_head-frame priority topic message short) in
    let wait = reduce_timeout s.stream.timeout s.stream.now s.stream.now in
    rw
      (read_with_timeout-at_hand (response_ok ∷ []) s.stream.timeout ((0, priority) ∷ rest) s.stream
        all)
      (rw
        (read_with_timeout-at_hand (priority ∷ []) wait rest
          (record s.stream { input = (0, priority) ∷ rest }) refl)
        (rw
          (
            read_frame-at_hand none wait frame later (record s.stream { input = rest }) short refl
                refl,
            from_buf-framed priority topic message clean valid,
          )
          (rw is_on refl)))
