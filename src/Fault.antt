-- ===== src/Fault.antt =====
-- src/lib.rs: `ErrorKind`, `Error` and its constructors; and results that carry such an error.
pub mod Foreign
use psrt.Prelude.{
  if◌then◌else◌, ℕ, ◌≡◌, refl, ◌⊎◌, inl, inr, Bool, true, false, Option, none, some, List, [], ◌∷◌,
}
use psrt.Prelude.Bytes.{Bytes}
use psrt.Prelude.Utf8.{is_utf8}
use Prim.Native.String.{String}

pub data ErrorKind : Type 0 where
  access_denied invalid_data io eof timeout internal try_later : ErrorKind

-- What a format string puts together: its literal text and the values shown in it.
pub data Piece : Type 0 where
  text : String → Piece
  shown : Bytes → Piece
  decimal : ℕ → Piece
  hex : ℕ → Piece

pub record Error : Type 0 where
  pub kind : ErrorKind
  pub message : Option (List Piece)

-- The constructor functions of `impl Error`, and `Error::kind`.
abbrev pub error_access : List Piece → Error
error_access m = record { kind = access_denied; message = some m }

abbrev pub error_io : List Piece → Error
error_io m = record { kind = io; message = some m }

abbrev pub error_eof : List Piece → Error
error_eof m = record { kind = eof; message = some m }

abbrev pub error_invalid_data : List Piece → Error
error_invalid_data m = record { kind = invalid_data; message = some m }

abbrev pub error_internal : List Piece → Error
error_internal m = record { kind = internal; message = some m }

abbrev pub error_later : Error
error_later = record { kind = try_later; message = none }

abbrev pub error_timeout : List Piece → Error
error_timeout m = record { kind = timeout; message = some m }

-- `impl Display for ErrorKind`.
unfoldable pub kind_text : ErrorKind → String
kind_text access_denied = "Access denied"
kind_text invalid_data = "Invalid data"
kind_text io = "I/O error"
kind_text eof = "EOF"
kind_text internal = "Internal error"
kind_text timeout = "Timeout"
kind_text try_later = "Will try later"

-- `impl Display for Error`.
unfoldable pub error_text : Error → List Piece
unfolding kind_text
error_text e = elim e.message [
  | none ↦ text (kind_text e.kind) ∷ []
  | some m ↦ text (kind_text e.kind) ∷ text ": " ∷ m
]

-- `e.kind() == k`.
abbrev pub is_eof : Error → Bool
is_eof e = elim e.kind [ eof ↦ true | _ ↦ false ]

abbrev pub is_access : Error → Bool
is_access e = elim e.kind [ access_denied ↦ true | _ ↦ false ]

abbrev pub is_io : Error → Bool
is_io e = elim e.kind [ io ↦ true | _ ↦ false ]

pub data Result {ℓ} (A : Type ℓ) : Type ℓ where
  ok : A → Result A
  err : Error → Result A

module _ {ℓ} {A : Type ℓ} where
  -- `ok_or_else`: the error stands for a missing value.
  abbrev pub ok_or : Option A → Error → Result A
  ok_or none e = err e
  ok_or (some a) e = ok a

module _ {ℓ κ} {A : Type ℓ} {B : Type κ} where
  infixl 5 ◌>>=◌
  -- `?`, for a result that is needed further on.
  abbrev pub ◌>>=◌ : Result A → (A → Result B) → Result B
  err e >>= next = err e
  ok a >>= next = next a

  -- A chain that succeeds has succeeded at its first step.
  pub >>=-eq-ok :
      (r : Result A) (next : A → Result B) {b : B}
      → (r >>= next) ≡ ok b
      → (a : A) × (r ≡ ok a) × (next a ≡ ok b)
  >>=-eq-ok (err e) next h = cc
  >>=-eq-ok (ok a) next h = (a, refl, h)

infixl 5 ◌>>◌
abbrev pub ◌>>◌ {ℓ} : {B : Type ℓ} → Result (Unit {0}) → Result B → Result B
test >> rest = test >>= λ _. rest

-- `impl From<Utf8Error> for Error`.
abbrev pub from_utf8_error : Error
from_utf8_error = error_invalid_data (text "invalid utf-8" ∷ [])

-- `std::str::from_utf8(s)?`.
abbrev pub from_utf8 : Bytes → Result Bytes
from_utf8 s = if is_utf8 s then ok s else err from_utf8_error

pub Result-cases {ℓ} :
    {A : Type ℓ} (r : Result A) → ((a : A) × (r ≡ ok a)) ⊎ ((e : Error) × (r ≡ err e))
Result-cases (ok a) = inl (a, refl)
Result-cases (err e) = inr (e, refl)
