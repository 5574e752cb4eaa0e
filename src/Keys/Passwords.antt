-- ===== src/Keys/Passwords.antt =====
-- src/passwords.rs: `Passwords::reload`. Reading the file stands outside.
use psrt.Prelude.{
  ℕ, zero, suc, ◌-◌, Bool, false, ◌&&◌, ◌||◌, Option, none, some, List, [], ◌∷◌, if◌then◌else◌, leb,
  ◌==◌,
}
use psrt.Prelude.Bytes.{Bytes, is_empty}
use psrt.Prelude.Split.{split_on}
use psrt.Prelude.Assoc.{Assoc, insert}
use psrt.Fault.{Result, ok, err}
use psrt.Keys.{Passwords}

-- `char::is_whitespace` of a character in UTF-8: of one byte, of two, and of three.
abbrev white1 : ℕ → Bool
white1 c = leb 9 c && leb c 13 || c == 32

abbrev white2 : ℕ → ℕ → Bool
white2 c d = c == 0xc2 && (d == 0x85 || d == 0xa0)

abbrev white3 : ℕ → ℕ → ℕ → Bool
white3 c d e =
    c == 0xe1 && d == 0x9a && e == 0x80
    || c == 0xe2 && d == 0x80 && (leb 0x80 e && leb e 0x8a || e == 0xa8 || e == 0xa9 || e == 0xaf)
    || c == 0xe2 && d == 0x81 && e == 0x9f
    || c == 0xe3 && d == 0x80 && e == 0x80

-- How many bytes the white space character at the front has, and 0 if there is none.
white_front : Bytes → ℕ
white_front [] = 0
white_front (c ∷ []) = if white1 c then 1 else 0
white_front (c ∷ d ∷ []) = if white1 c then 1 else if white2 c d then 2 else 0
white_front (c ∷ d ∷ e ∷ s) =
    if white1 c then 1 else if white2 c d then 2 else if white3 c d e then 3 else 0

-- `skip` bytes are left of a white space character.
strip_front : ℕ → Bytes → Bytes
unfolding white_front
strip_front skip [] = []
strip_front (suc skip) (c ∷ s) = strip_front skip s
strip_front zero (c ∷ s) =
    let rest = strip_front (white_front (c ∷ s) - 1) s in
    if white_front (c ∷ s) == 0 then c ∷ s else rest

unfoldable pub trim_start : Bytes → Bytes
unfolding strip_front
trim_start s = strip_front 0 s

unfoldable pub trim_end : Bytes → Bytes
unfolding trim_start
trim_end [] = []
trim_end (c ∷ s) = let rest = trim_end s in if is_empty (trim_start (c ∷ s)) then [] else c ∷ rest

unfoldable pub trim : Bytes → Bytes
unfolding trim_start trim_end
trim s = trim_end (trim_start s)

-- `lines()`: what stands between the ends of lines, without an empty last line. A carriage return in
-- front of an end is left to the trimming of each line.
abbrev pub drop_empty_last : List Bytes → List Bytes
drop_empty_last [] = []
drop_empty_last ([] ∷ []) = []
drop_empty_last ((c ∷ s) ∷ []) = (c ∷ s) ∷ []
drop_empty_last (s ∷ t ∷ rest) = s ∷ drop_empty_last (t ∷ rest)

unfoldable pub lines : Bytes → List Bytes
unfolding split_on
lines content = drop_empty_last (split_on 10 content)

abbrev pub is_comment : Bytes → Bool
is_comment [] = false
is_comment (c ∷ s) = c == 35

-- The two parts of a line; `none` for a line that is passed over.
abbrev pub entry_of : List Bytes → Option (Bytes × Bytes)
entry_of [] = none
entry_of (login ∷ []) = none
entry_of (login ∷ hash ∷ []) = if is_comment login then none else some (trim login, trim hash)
entry_of (login ∷ hash ∷ more ∷ parts) = none

unfoldable pub parse_line : Bytes → Option (Bytes × Bytes)
unfolding trim split_on
parse_line line = entry_of (split_on 58 (trim line))

abbrev pub insert_entry : Option (Bytes × Bytes) → Assoc Bytes → Assoc Bytes
insert_entry none map = map
insert_entry (some (login, hash)) map = insert login hash map

-- The loop over the lines.
unfoldable pub load_lines : List Bytes → Assoc Bytes → Assoc Bytes
unfolding parse_line insert
load_lines [] map = map
load_lines (line ∷ rest) map = load_lines rest (insert_entry (parse_line line) map)

-- `none` is a database without a file; an error leaves the passwords as they were.
unfoldable pub reload_passwords : Option (Result Bytes) → Passwords → Result (Unit {0}) × Passwords
unfolding load_lines lines trim
reload_passwords none old = (ok tt, old)
reload_passwords (some (err e)) old = (err e, old)
reload_passwords (some (ok content)) old = (ok tt, some (load_lines (lines (trim content)) []))
