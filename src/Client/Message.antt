-- ===== src/Client/Message.antt =====
-- `Message` and `Message::from_buf`.
use psrt.Prelude.{ℕ, ◌+◌, ◌-◌, Option, none, some, [], ◌∷◌, if◌then◌else◌, length, take, drop}
use psrt.Prelude.Bytes.{Bytes}
use psrt.Prelude.Split.{position}
use psrt.Prelude.Utf8.{is_utf8}
use psrt.Fault.{Result, ok, err, error_invalid_data, text, from_utf8_error}

pub record Message : Type 0 where
  pub priority : ℕ
  pub topic : Bytes
  pub body : Bytes

-- `split_off(npos + 1)` leaves the topic and its zero byte in the buffer.
unfoldable pub from_split : ℕ → Bytes → Bytes → Result Message
from_split priority buf body =
    let topic = take (length buf - 1) buf in
    if is_utf8 topic
    then ok (record { priority = priority; topic = topic; body = body })
    else err from_utf8_error

unfoldable pub from_position : ℕ → Bytes → Option ℕ → Result Message
unfolding from_split
from_position priority buf none = err (error_invalid_data (text "Invalid msg frame" ∷ []))
from_position priority buf (some npos) =
    from_split priority (take (npos + 1) buf) (drop (npos + 1) buf)

unfoldable pub from_buf : Bytes → ℕ → Result Message
unfolding position from_position
from_buf buf priority = from_position priority buf (position 0 buf)

-- `data_as_str`.
unfoldable pub data_as_str : Message → Result Bytes
data_as_str m = if is_utf8 m.body then ok m.body else err from_utf8_error
