-- ===== src/Client/Command.antt =====
-- `ControlCommand` and its bytes on the wire.
use psrt.Prelude.{ℕ, ◌+◌, List, [], ◌∷◌, ◌++◌, length}
use psrt.Prelude.Bytes.{Bytes}
use psrt.Prelude.Words.{le32}
use psrt.Wire.{op_nop, op_subscribe, op_unsubscribe, op_publish, op_publish_repl, op_bye, u32}

pub data ControlCommand : Type 0 where
  nop : ControlCommand
  subscribe : Bytes → ControlCommand
  subscribe_bulk : List Bytes → ControlCommand
  unsubscribe : Bytes → ControlCommand
  unsubscribe_bulk : List Bytes → ControlCommand
  publish : ℕ → Bytes → Bytes → ControlCommand
  publish_repl : ℕ → Bytes → Bytes → ℕ → ControlCommand
  bye : ControlCommand

-- The loop `len += t.len() as u32 + 1`.
unfoldable pub bulk_len : ℕ → List Bytes → ℕ
bulk_len len [] = len
bulk_len len (t ∷ topics) = bulk_len (u32 (len + u32 (u32 (length t) + 1))) topics

-- Each topic with a zero byte behind it.
unfoldable pub bulk_body : List Bytes → Bytes
bulk_body [] = []
bulk_body (t ∷ topics) = t ++ 0 ∷ bulk_body topics

-- `as_bytes`. The messages of the two publish commands are sent separately.
unfoldable pub as_bytes : ControlCommand → Bytes
unfolding bulk_len bulk_body le32
as_bytes nop = op_nop ∷ []
as_bytes (subscribe topic) = op_subscribe ∷ (le32 (u32 (length topic)) ++ topic)
as_bytes (subscribe_bulk topics) = op_subscribe ∷ (le32 (bulk_len 0 topics) ++ bulk_body topics)
as_bytes (unsubscribe topic) = op_unsubscribe ∷ (le32 (u32 (length topic)) ++ topic)
as_bytes (unsubscribe_bulk topics) = op_unsubscribe ∷ (le32 (bulk_len 0 topics) ++ bulk_body topics)
as_bytes (publish priority topic message) =
    op_publish
    ∷ priority
    ∷ (le32 (u32 (u32 (u32 (length topic) + 1) + u32 (length message))) ++ (topic ++ 0 ∷ []))
as_bytes (publish_repl priority topic message timestamp) =
    op_publish_repl ∷ (le32 (u32 (length topic)) ++ topic)
as_bytes bye = op_bye ∷ []
