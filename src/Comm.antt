-- ===== src/Comm.antt =====
-- src/comm.rs: `SStream`, and `reduce_timeout` of src/lib.rs. Time is a number that only waiting
-- moves on; the peer is a schedule of bytes to come and of how it takes what is written.
pub mod Deadline
pub mod Delivery
pub mod Consumes
use psrt.Prelude.{
  ℕ, zero, suc, ◌+◌, ◌-◌, ◌≡◌, Bool, true, false, ◌&&◌, Option, none, some, List, [], ◌∷◌, ◌++◌,
  ltb, leb, ◌==◌, if◌then◌else◌, length, max, take,
}
use psrt.Prelude.Bytes.{Bytes}
use psrt.Prelude.Words.{of_le}
use psrt.Fault.{Error, Result, ok, err, error_eof, error_timeout, error_invalid_data, text, decimal}
use psrt.Exec.{Exec, raise, gets, ◌>>=◌, ◌>>◌}

-- Bytes to come, each with the time of its arrival.
abbrev pub Arrivals : Type 0
Arrivals = List (ℕ × ℕ)

-- How the peer takes one write: after a delay, or with an error of the connection; or it takes so many
-- of the bytes, and then no more, or then the connection breaks.
pub data Taking : Type 0 where
  takes : ℕ → Taking
  fails : Error → Taking
  stalls : ℕ → Taking
  breaks : ℕ → Error → Taking

-- `closes` is when the peer closes the connection behind its last byte, if it does. Once
-- `takings` has run out, writes are taken at once.
pub record Stream : Type 0 where
  pub input : Arrivals
  pub closes : Option ℕ
  pub takings : List Taking
  pub output : Bytes
  pub now : ℕ
  pub timeout : ℕ

-- `timeout - op_start.elapsed()`, and zero if that time is over.
unfoldable pub reduce_timeout : ℕ → ℕ → ℕ → ℕ
reduce_timeout timeout op_start now =
    let spent = now - op_start in if ltb timeout spent then 0 else timeout - spent

pub record Gathered : Type 0 where
  pub got : Bytes
  pub missing : ℕ
  pub left : Arrivals
  pub at : ℕ

-- Wait for `n` bytes, as long as they come by the deadline.
unfoldable pub gather : ℕ → ℕ → ℕ → Arrivals → Gathered
gather zero deadline now input = record { got = []; missing = 0; left = input; at = now }
gather (suc n) deadline now [] = record { got = []; missing = suc n; left = []; at = now }
gather (suc n) deadline now ((t, b) ∷ input) =
    let more = gather n deadline (max now t) input in
    if leb (max now t) deadline
    then record more { got = b ∷ more.got }
    else record { got = []; missing = suc n; left = (t, b) ∷ input; at = now }

-- `read_exact` has failed: the peer closed the connection in time, or the time was over.
abbrev pub short_read : Option ℕ → ℕ → Gathered → Error × ℕ
short_read (some t) deadline g =
    if length g.left == 0 && leb t deadline
    then (error_eof (text "early eof" ∷ []), max g.at t)
    else (error_timeout (text "deadline has elapsed" ∷ []), deadline)
short_read none deadline g = (error_timeout (text "deadline has elapsed" ∷ []), deadline)

-- `read_with_timeout` into a buffer of `n` bytes.
unfoldable pub read_with_timeout : ℕ → ℕ → Exec Stream Bytes
unfolding gather
read_with_timeout n timeout s =
    let deadline = s.now + timeout in
    let g = gather n deadline s.now s.input in
    let failed = short_read s.closes deadline g in
    if g.missing == 0
    then (ok g.got, record s { input = g.left; now = g.at })
    else (err failed.0, record s { input = g.left; now = failed.1 })

unfoldable pub read : ℕ → Exec Stream Bytes
unfolding read_with_timeout
read n s = read_with_timeout n s.timeout s

abbrev take_write : List Taking → Bytes → ℕ → Exec Stream (Unit {0})
take_write [] buf timeout s = (ok tt, record s { output = s.output ++ buf })
take_write (takes d ∷ rest) buf timeout s =
    if leb d timeout
    then (ok tt, record s { output = s.output ++ buf; takings = rest; now = s.now + d })
    else (
      err (error_timeout (text "deadline has elapsed" ∷ [])),
      record s { takings = rest; now = s.now + timeout },
    )
take_write (fails e ∷ rest) buf timeout s = (err e, record s { takings = rest })
take_write (stalls n ∷ rest) buf timeout s = (
  err (error_timeout (text "deadline has elapsed" ∷ [])),
  record s { output = s.output ++ take n buf; takings = rest; now = s.now + timeout },
)
take_write (breaks n e ∷ rest) buf timeout s =
    (err e, record s { output = s.output ++ take n buf; takings = rest })

unfoldable pub write_with_timeout : Bytes → ℕ → Exec Stream (Unit {0})
write_with_timeout buf timeout s = take_write s.takings buf timeout s

unfoldable pub write : Bytes → Exec Stream (Unit {0})
unfolding write_with_timeout
write buf s = write_with_timeout buf s.timeout s

-- `max_length` refuses a longer frame.
abbrev pub too_long : Option ℕ → ℕ → Bool
too_long none len = false
too_long (some max_len) len = ltb max_len len

-- What `read_frame_with_timeout` does once it has the four bytes of the length.
abbrev pub frame_rest : Option ℕ → ℕ → ℕ → Bytes → Exec Stream Bytes
frame_rest max_length timeout op_start len_buf s =
    let len = of_le len_buf in
    if too_long max_length len
    then (err (error_invalid_data (text "Frame too long (" ∷ decimal len ∷ text ")" ∷ [])), s)
    else read_with_timeout len (reduce_timeout timeout op_start s.now) s

-- A frame: its length as a little-endian u32, and its bytes, both within one timeout.
unfoldable pub read_frame_with_timeout : Option ℕ → ℕ → Exec Stream Bytes
unfolding read_with_timeout reduce_timeout of_le
read_frame_with_timeout max_length timeout = do
  op_start ← gets (λ s. s.now)
  len_buf ← read_with_timeout 4 timeout
  frame_rest max_length timeout op_start len_buf

unfoldable pub read_frame : Option ℕ → Exec Stream Bytes
unfolding read_frame_with_timeout
read_frame max_length s = read_frame_with_timeout max_length s.timeout s
