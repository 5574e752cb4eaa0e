-- ===== src/Tests/Streams.antt =====
-- Frames that come in time, late, or in pieces.
use psrt.Prelude.{◌≤◌, ◌≡◌, refl, none, some, [], ◌∷◌}
use psrt.Prelude.Bytes.{Bytes}
use psrt.Exec.{◌>>=◌}
use psrt.Comm.{Stream, read_frame_with_timeout}
use psrt.Comm.Deadline.{read_frame_with_timeout_in_time}

abbrev two_bytes : Bytes
two_bytes = 7 ∷ 8 ∷ []

-- The head at once, the body's two bytes after three and after nine ticks.
abbrev slow : Stream
slow = record {
  input = (0, 2) ∷ (0, 0) ∷ (0, 0) ∷ (0, 0) ∷ (103, 7) ∷ (109, 8) ∷ [];
  closes = none;
  takings = [];
  output = [];
  now = 100;
  timeout = 10;
}

-- With one tick less than it needs the read fails, at its deadline.
slow_is_late : (read_frame_with_timeout (some 2) 8 slow).1.now ≡ 108
unfolding read_frame_with_timeout ◌>>=◌
slow_is_late = refl

read_frame_with_timeout_in_time_example :
    (100 ≤ (read_frame_with_timeout (some 2) 8 slow).1.now)
    × ((read_frame_with_timeout (some 2) 8 slow).1.now ≤ 108)
read_frame_with_timeout_in_time_example = read_frame_with_timeout_in_time (some 2) 8 slow
