-- ===== src/Prelude/Utf8.antt =====
-- `std::str::from_utf8`: which byte strings are UTF-8, by the table of well-formed sequences.
use Prim.Native.Nat.{ℕ, zero, suc}
use mathlib.Core.Bool.{Bool, false, ◌&&◌}
use mathlib.Core.Option.{Option, none, some}
use mathlib.Core.List.{[], ◌∷◌}
use psrt.Prelude.Tests.{◌==◌, ltb, leb, if◌then◌else◌}
use psrt.Prelude.Bytes.{Bytes}

-- How many continuation bytes are due, and the range of the next one.
pub record Pending : Type 0 where
  due : ℕ
  lo : ℕ
  hi : ℕ

abbrev start : Pending
start = record { due = 0; lo = 0x80; hi = 0xbf }

abbrev await : ℕ → ℕ → ℕ → Option Pending
await due lo hi = some (record { due = due; lo = lo; hi = hi })

-- The first byte of a character.
lead : ℕ → Option Pending
lead b =
    if ltb b 0x80
    then some start
    else if leb 0xc2 b && leb b 0xdf
    then await 1 0x80 0xbf
    else if b == 0xe0
    then await 2 0xa0 0xbf
    else if b == 0xed
    then await 2 0x80 0x9f
    else if leb 0xe1 b && leb b 0xef
    then await 2 0x80 0xbf
    else if b == 0xf0
    then await 3 0x90 0xbf
    else if leb 0xf1 b && leb b 0xf3
    then await 3 0x80 0xbf
    else if b == 0xf4
    then await 3 0x80 0x8f
    else none

step : Pending → ℕ → Option Pending
unfolding lead
step p b = elim p.due [
  | zero ↦ lead b
  | suc n ↦ if leb p.lo b && leb b p.hi then await n 0x80 0xbf else none
]

run : Pending → Bytes → Option Pending
run p [] = some p
run p (b ∷ bs) = elim (step p b) [ none ↦ none | some q ↦ run q bs ]

complete : Option Pending → Bool
complete none = false
complete (some p) = p.due == 0

unfoldable pub is_utf8 : Bytes → Bool
unfolding run step complete
is_utf8 s = complete (run start s)
