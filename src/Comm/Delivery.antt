-- ===== src/Comm/Delivery.antt =====
-- Bytes that have arrived are read as they were sent.
use psrt.Prelude.{
  ℕ, ◌+◌, ◌≤◌, ◌<◌, ◌≡◌, refl, ap, ◌∙◌, false, Option, [], ◌∷◌, ◌++◌, arith, length, max,
}
use psrt.Prelude.Bytes.{Bytes}
use psrt.Prelude.Words.{le32, of_le, of_le-le32}
use psrt.Fault.{ok}
use psrt.Exec.{◌>>=◌}
use psrt.Comm.{
  Arrivals, Stream, reduce_timeout, gather, read_with_timeout, too_long, frame_rest,
  read_frame_with_timeout, write, write_with_timeout,
}

-- Bytes that are already there when they are asked for.
abbrev pub at_hand : Bytes → Arrivals → Arrivals
at_hand [] later = later
at_hand (b ∷ bs) later = (0, b) ∷ at_hand bs later

pub at_hand-append :
    (a b : Bytes) (later : Arrivals) → at_hand (a ++ b) later ≡ at_hand a (at_hand b later)
at_hand-append [] b later = refl
at_hand-append (x ∷ a) b later = ap (◌∷◌ (0, x)) (at_hand-append a b later)

gather-at_hand :
    (bytes : Bytes) (deadline now : ℕ) (later : Arrivals)
    → now ≤ deadline
    → gather (length bytes) deadline now (at_hand bytes later)
      ≡ record { got = bytes; missing = 0; left = later; at = now }
unfolding gather
gather-at_hand [] deadline now later h = refl
gather-at_hand (b ∷ bytes) deadline now later h =
    let same : max now 0 ≡ now = omega arith in
    ground (arith, gather-at_hand bytes deadline now later h, same)

-- A read takes exactly the bytes that it asks for, if they are there.
pub read_with_timeout-at_hand :
    (bytes : Bytes) (timeout : ℕ) (later : Arrivals) (s : Stream)
    → s.input ≡ at_hand bytes later
    → read_with_timeout (length bytes) timeout s ≡ (ok bytes, record s { input = later })
unfolding read_with_timeout
read_with_timeout-at_hand bytes timeout later s h =
    ground (arith, h, gather-at_hand bytes (s.now + timeout) s.now later)

frame_rest-at_hand :
    (max_length : Option ℕ) (timeout start : ℕ) (bytes head : Bytes) (later : Arrivals) (s : Stream)
    → of_le head ≡ length bytes
    → too_long max_length (length bytes) ≡ false
    → s.input ≡ at_hand bytes later
    → frame_rest max_length timeout start head s ≡ (ok bytes, record s { input = later })
frame_rest-at_hand max_length timeout start bytes head later s len fits h =
    rw (len, fits) (read_with_timeout-at_hand bytes (reduce_timeout timeout start s.now) later s h)

-- A frame that is there, with its length in front, is read as it was sent, if its length fits in a
-- u32 and is within the limit.
pub read_frame-at_hand :
    (max_length : Option ℕ) (timeout : ℕ) (bytes : Bytes) (later : Arrivals) (s : Stream)
    → length bytes < 4294967296
    → too_long max_length (length bytes) ≡ false
    → s.input ≡ at_hand (le32 (length bytes) ++ bytes) later
    → read_frame_with_timeout max_length timeout s ≡ (ok bytes, record s { input = later })
unfolding read_frame_with_timeout le32 ◌>>=◌
read_frame-at_hand max_length timeout bytes later s short fits h =
    rw
      (read_with_timeout-at_hand (le32 (length bytes)) timeout (at_hand bytes later) s
        (h ∙ at_hand-append (le32 (length bytes)) bytes later))
      (frame_rest-at_hand max_length timeout s.now bytes (le32 (length bytes)) later
        (record s { input = at_hand bytes later }) (omega (arith, of_le-le32 (length bytes))) fits
        refl)

-- What the peer takes at once is written.
pub write-at_once :
    (bytes : Bytes) (s : Stream)
    → s.takings ≡ []
    → write bytes s ≡ (ok tt, record s { output = s.output ++ bytes })
unfolding write write_with_timeout
write-at_once bytes s h = ground (arith, h)

pub write_with_timeout-at_once :
    (bytes : Bytes) (timeout : ℕ) (s : Stream)
    → s.takings ≡ []
    → write_with_timeout bytes timeout s ≡ (ok tt, record s { output = s.output ++ bytes })
unfolding write_with_timeout
write_with_timeout-at_once bytes timeout s h = ground (arith, h)
