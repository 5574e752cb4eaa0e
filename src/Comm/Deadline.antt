-- ===== src/Comm/Deadline.antt =====
-- Reading a frame takes no longer than its timeout, however the bytes arrive.
use psrt.Prelude.{
  ℕ, zero, suc, ◌+◌, ◌≤◌, ◌≡◌, refl, false, Option, [], ◌∷◌, arith, length, max, Bool-cases, inl,
  inr,
}
use psrt.Prelude.Bytes.{Bytes}
use psrt.Prelude.Words.{of_le}
use psrt.Fault.{Result, ok, err}
use psrt.Exec.{continue, ◌>>=◌}
use psrt.Comm.{
  Arrivals, Stream, reduce_timeout, gather, read_with_timeout, too_long, frame_rest,
  read_frame_with_timeout,
}

gather_in_time :
    (n deadline now : ℕ) (input : Arrivals)
    → now ≤ deadline
    → (now ≤ (gather n deadline now input).at) × ((gather n deadline now input).at ≤ deadline)
unfolding gather
gather_in_time zero deadline now input h = omega arith
gather_in_time (suc n) deadline now [] h = omega arith
gather_in_time (suc n) deadline now ((t, b) ∷ input) h =
    ground (arith, gather_in_time n deadline (max now t) input)

-- What was read, what was missing and where it ended.
length-got :
    (n deadline now : ℕ) (input : Arrivals)
    → length (gather n deadline now input).got + (gather n deadline now input).missing ≡ n
unfolding gather
length-got zero deadline now input = omega arith
length-got (suc n) deadline now [] = omega arith
length-got (suc n) deadline now ((t, b) ∷ input) =
    ground (arith, length-got n deadline (max now t) input)

pub read_with_timeout_in_time :
    (n timeout : ℕ) (s : Stream)
    → (s.now ≤ (read_with_timeout n timeout s).1.now)
      × ((read_with_timeout n timeout s).1.now ≤ s.now + timeout)
unfolding read_with_timeout
read_with_timeout_in_time n timeout s =
    let g = gather_in_time n (s.now + timeout) s.now s.input (omega arith) in ground (arith, g)

-- A read that succeeds fills its buffer.
pub length-read_with_timeout :
    (n timeout : ℕ) (s : Stream) {bytes : Bytes}
    → (read_with_timeout n timeout s).0 ≡ ok bytes
    → length bytes ≡ n
unfolding read_with_timeout
length-read_with_timeout n timeout s h =
    ground (arith, length-got n (s.now + timeout) s.now s.input)

reduce_timeout_ends :
    (timeout start now : ℕ)
    → start ≤ now
    → now ≤ start + timeout
    → now + reduce_timeout timeout start now ≡ start + timeout
unfolding reduce_timeout
reduce_timeout_ends timeout start now h k = ground arith

-- Reading a frame, both parts of it, ends at the timeout counted from its start at the latest,
-- with the frame or with an error, whatever the peer sends and when.
pub read_frame_with_timeout_in_time :
    (max_length : Option ℕ) (timeout : ℕ) (s : Stream)
    → (s.now ≤ (read_frame_with_timeout max_length timeout s).1.now)
      × ((read_frame_with_timeout max_length timeout s).1.now ≤ s.now + timeout)
unfolding read_frame_with_timeout ◌>>=◌
read_frame_with_timeout_in_time max_length timeout s =
    go (read_with_timeout 4 timeout s).0 (read_with_timeout 4 timeout s).1
      (read_with_timeout_in_time 4 timeout s)
  where
    go :
        (r : Result Bytes) (s' : Stream)
        → (s.now ≤ s'.now) × (s'.now ≤ s.now + timeout)
        → (s.now ≤ (continue r (frame_rest max_length timeout s.now) s').1.now)
          × ((continue r (frame_rest max_length timeout s.now) s').1.now ≤ s.now + timeout)
    go (err e) s' b = b
    go (ok len_buf) s' b =
        let len = of_le len_buf in
        let left = reduce_timeout timeout s.now s'.now in
        ground (
          arith,
          b,
          read_with_timeout_in_time len left s',
          reduce_timeout_ends timeout s.now s'.now,
        )

-- A frame that is read has the length that its head states, and is not over the limit.
pub read_frame_with_timeout-within :
    (max_length : Option ℕ) (timeout : ℕ) (s : Stream) {bytes : Bytes}
    → (read_frame_with_timeout max_length timeout s).0 ≡ ok bytes
    → (too_long max_length (length bytes) ≡ false)
      × ((head : Bytes) × ((read_with_timeout 4 timeout s).0 ≡ ok head)
          × (length bytes ≡ of_le head))
unfolding read_frame_with_timeout ◌>>=◌
read_frame_with_timeout-within max_length timeout s {bytes} h =
    go (read_with_timeout 4 timeout s).0 (read_with_timeout 4 timeout s).1 h
  where
    go :
        (r : Result Bytes) (s' : Stream)
        → (continue r (frame_rest max_length timeout s.now) s').0 ≡ ok bytes
        → (too_long max_length (length bytes) ≡ false)
          × ((head : Bytes) × (r ≡ ok head) × (length bytes ≡ of_le head))
    go (err e) s' k = cc
    go (ok head) s' k = elim (Bool-cases (too_long max_length (of_le head))) [
      | inl over ↦ absurd (ground arith)
      | inr fits ↦
          let exact =
            length-read_with_timeout (of_le head) (reduce_timeout timeout s.now s'.now) s'
              {bytes = bytes} (ground arith) in
          (ground (arith, exact), (head, refl, exact))
    ]
