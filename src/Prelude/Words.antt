-- ===== src/Prelude/Words.antt =====
-- Little-endian words: `to_le_bytes` and `from_le_bytes`.
use Prim.Native.Nat.{ℕ, ◌+◌, ◌*◌, ◌/◌, ◌%◌, ◌^◌, ◌<◌}
use mathlib.Core.Path.{◌≡◌}
use mathlib.Core.List.{[], ◌∷◌}
use native.Mathlib.Omega.{arith}
use psrt.Prelude.Bytes.{Bytes}

-- `(n as u16).to_le_bytes()`, for u32 and u64 likewise; what exceeds the width is cut off.
unfoldable pub le16 : ℕ → Bytes
le16 n = n % 256 ∷ n / 256 % 256 ∷ []

unfoldable pub le32 : ℕ → Bytes
le32 n = n % 256 ∷ n / 256 % 256 ∷ n / 65536 % 256 ∷ n / 16777216 % 256 ∷ []

unfoldable pub le64 : ℕ → Bytes
le64 n =
    n % 256
    ∷ n / 2 ^ 8 % 256
    ∷ n / 2 ^ 16 % 256
    ∷ n / 2 ^ 24 % 256
    ∷ n / 2 ^ 32 % 256
    ∷ n / 2 ^ 40 % 256
    ∷ n / 2 ^ 48 % 256
    ∷ n / 2 ^ 56 % 256
    ∷ []

-- `from_le_bytes`, at every width.
unfoldable pub of_le : Bytes → ℕ
of_le [] = 0
of_le (b ∷ bs) = b + 256 * of_le bs

pub of_le-le16 : (n : ℕ) → n < 65536 → of_le (le16 n) ≡ n
unfolding of_le le16
of_le-le16 n h = omega arith

pub of_le-le32 : (n : ℕ) → of_le (le32 n) ≡ n % 4294967296
unfolding of_le le32
of_le-le32 n = omega arith

pub of_le-le64 : (n : ℕ) → n < 18446744073709551616 → of_le (le64 n) ≡ n
unfolding of_le le64
of_le-le64 n h = omega arith
