-- ===== src/PubSub/Store.antt =====
-- The objects that tasks share: client data behind `Arc` and `Mutex`, and the bounded channels of
-- `async_channel`. An object is named by its place on the heap.
use psrt.Prelude.{ℕ, Bool, true, not, Option, List, [], ◌∷◌, ◌++◌, ltb, ◌==◌, if◌then◌else◌, length}
use psrt.Prelude.Bytes.{Bytes}

-- The frame is the packed head of a message; the time stamp is used for analytics only.
pub record MessageFrame : Type 0 where
  pub timestamp : Option ℕ
  pub frame : Bytes
  pub body : Option Bytes

-- What waits to be received, oldest first. `is_open` is false once the receiver is gone.
pub record Channel : Type 0 where
  pub capacity : ℕ
  pub queue : List MessageFrame
  pub is_open : Bool

-- `ServerClientData`, without the digest, which stands in the client's handle. `data_channel` is
-- the place of the channel, `tasks` are the tasks to abort with the client.
pub record ServerClientData : Type 0 where
  pub login : Bytes
  pub addr : Bytes
  pub token : Bytes
  pub data_channel : Option ℕ
  pub tasks : List ℕ

abbrev pub update {ℓ} : {A : Type ℓ} → (ℕ → A) → ℕ → A → ℕ → A
update f k v j = if k == j then v else f j

-- `is_full`, and `send` on a channel that is not full: what is sent stands last.
unfoldable pub is_full : Channel → Bool
is_full c = not (ltb (length c.queue) c.capacity)

unfoldable pub send : MessageFrame → Channel → Channel
send message c = if c.is_open then record c { queue = c.queue ++ message ∷ [] } else c

abbrev pub bounded : ℕ → Channel
bounded capacity = record { capacity = capacity; queue = []; is_open = true }
