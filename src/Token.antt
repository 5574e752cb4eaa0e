-- ===== src/Token.antt =====
-- src/token.rs: tokens as text. The crate `hex` is a parameter.
use psrt.Prelude.{◌≡◌, [], ◌∷◌, arith, ◌==◌, if◌then◌else◌, length}
use psrt.Prelude.Bytes.{Bytes}
use psrt.Fault.{Result, ok, err, error_invalid_data, text, ◌>>=◌}

-- `hex::encode` and `hex::decode`.
pub record Hex : Type 0 where
  pub encode : Bytes → Bytes
  pub decode : Bytes → Result Bytes

-- The documented behaviour: what was encoded is decoded as it was.
pub record HexLaws (H : Hex) : Type 0 where
  pub decodes : (bytes : Bytes) → H.decode (H.encode bytes) ≡ ok bytes

module _ (H : Hex) where
  -- `as_slice().try_into()` to an array of 32 bytes.
  abbrev pub to_array : Bytes → Result Bytes
  to_array bytes =
      if length bytes == 32
      then ok bytes
      else err (error_invalid_data (text "could not convert slice to array" ∷ []))

  -- `FromStr` and `Display` of `Token`.
  unfoldable pub token_from_str : Bytes → Result Bytes
  token_from_str s = do bytes ← H.decode s; to_array bytes

  abbrev pub show_token : Bytes → Bytes
  show_token token = H.encode token

module _ (H : Hex) (L : HexLaws H) where
  -- A token of 32 bytes, printed and parsed, is the token.
  pub token_from_str-show_token :
      (token : Bytes) → length token ≡ 32 → token_from_str H (show_token H token) ≡ ok token
  unfolding token_from_str
  token_from_str-show_token token h = ground (arith, h, L.decodes token)
