-- ===== src/Comm/Consumes.antt =====
-- Reads take bytes from the input and nothing puts bytes back.
use psrt.Prelude.{ℕ, zero, suc, ◌+◌, ◌≤◌, ◌≡◌, Option, [], ◌∷◌, arith, length, max}
use psrt.Prelude.Bytes.{Bytes}
use psrt.Prelude.Words.{of_le}
use psrt.Fault.{ok}
use psrt.Exec.Keeps.{Keeps, keeps_rules}
use psrt.Comm.{
  Arrivals, Stream, gather, reduce_timeout, read_with_timeout, write_with_timeout, write,
  frame_rest, read_frame_with_timeout,
}

gather-left :
    (n deadline now : ℕ) (input : Arrivals)
    → length (gather n deadline now input).left + n
      ≤ length input + (gather n deadline now input).missing
unfolding gather
gather-left zero deadline now input = omega arith
gather-left (suc n) deadline now [] = omega arith
gather-left (suc n) deadline now ((t, b) ∷ input) =
    ground (arith, gather-left n deadline (max now t) input)

-- The bytes still to come are at most `n`.
abbrev pub Within : ℕ → Stream → Type 0
Within n s = length s.input ≤ n

gather-missing : (n deadline now : ℕ) (input : Arrivals) → (gather n deadline now input).missing ≤ n
unfolding gather
gather-missing zero deadline now input = omega arith
gather-missing (suc n) deadline now [] = omega arith
gather-missing (suc n) deadline now ((t, b) ∷ input) =
    ground (arith, gather-missing n deadline (max now t) input)

read_with_timeout-left :
    (n timeout : ℕ) (s : Stream) → length (read_with_timeout n timeout s).1.input ≤ length s.input
unfolding read_with_timeout
read_with_timeout-left n timeout s = ground (
  arith,
  gather-left n (s.now + timeout) s.now s.input,
  gather-missing n (s.now + timeout) s.now s.input,
)

-- A read that succeeds has taken its bytes.
pub read_with_timeout-consumes :
    (n timeout : ℕ) (s : Stream) {bytes : Bytes}
    → (read_with_timeout n timeout s).0 ≡ ok bytes
    → length (read_with_timeout n timeout s).1.input + n ≤ length s.input
unfolding read_with_timeout
read_with_timeout-consumes n timeout s h =
    ground (arith, gather-left n (s.now + timeout) s.now s.input)

module _ {k : ℕ} where
  pub read_with_timeout-Within : (n timeout : ℕ) → Keeps (Within k) (read_with_timeout n timeout)
  read_with_timeout-Within n timeout = record {
    at = λ s h. omega (arith, read_with_timeout-left n timeout s);
  }

  frame_rest-Within :
      (max_length : Option ℕ) (timeout start : ℕ) (head : Bytes)
      → Keeps (Within k) (frame_rest max_length timeout start head)
  frame_rest-Within max_length timeout start head = record {
    at = λ s h.
        ground (arith, read_with_timeout-left (of_le head) (reduce_timeout timeout start s.now) s);
  }

  pub read_frame-Within :
      (max_length : Option ℕ) (timeout : ℕ)
      → Keeps (Within k) (read_frame_with_timeout max_length timeout)
  unfolding read_frame_with_timeout
  read_frame-Within max_length timeout =
      search (keeps_rules, read_with_timeout-Within, frame_rest-Within)

  pub write-Within : (buf : Bytes) → Keeps (Within k) (write buf)
  unfolding write write_with_timeout
  write-Within buf = record { at = λ s h. ground arith }

pub ruleset stream_rules = (read_with_timeout-Within, read_frame-Within, write-Within)
