-- ===== src/Udp.antt =====
-- src/server.rs: UDP packets, `process_udp_packet`, `process_udp_block` and the acknowledgment of
-- `handle_udp_listener`.
pub mod Client
pub mod Opening
pub mod Reading
pub mod Authentic
pub mod Admission
pub mod Listening
use psrt.Prelude.{
  ℕ, ◌+◌, Bool, true, false, ◌&&◌, Option, none, some, List, [], ◌∷◌, ◌++◌, if◌then◌else◌, ltb,
  ◌==◌, length, take, drop,
}
use psrt.Prelude.Bytes.{Bytes, codes, is_empty, beq}
use psrt.Prelude.Split.{splitn2}
use psrt.Prelude.Words.{le16, of_le}
use psrt.Prelude.Utf8.{is_utf8}
use psrt.Wire.{
  control_header, protocol_version, op_publish, op_publish_no_ack, response_ok, response_err,
  response_err_access,
}
use psrt.Fault.{
  Error, Result, ok, err, error_invalid_data, error_access, text, shown, hex, from_utf8_error,
  is_access, from_utf8,
}
use psrt.Topic.{prepare_topic, has_invalid_symbols}
use psrt.Acl.{Acl, AclDb, get_acl, allow_write}
use psrt.PubSub.Submap.{ServerClient, SubMap}
use psrt.PubSub.Db.{ClientDb, get_subscribers}
use psrt.Push.{push_to_subscribers}
use psrt.Server.{Settings, Replicated}
use psrt.Guards.{Guards, user_of, format_login}
use psrt.Keys.{
  Crypto, Keys, Passwords, EncryptionType, from_byte, need_decrypt, auth_and_decr, verify,
}

-- `Result<T, (Error, bool)>`: the flag asks for an acknowledgment of the error.
pub data Reply {ℓ} (A : Type ℓ) : Type ℓ where
  good : A → Reply A
  bad : Error → Bool → Reply A

infixl 5 ◌>>=◌ ◌>>◌
abbrev pub ◌>>=◌ {ℓ κ} : {A : Type ℓ} {B : Type κ} → Reply A → (A → Reply B) → Reply B
good a >>= f = f a
bad e ack >>= f = bad e ack

abbrev pub ◌>>◌ {ℓ} : {B : Type ℓ} → Reply (Unit {0}) → Reply B → Reply B
m >> k = m >>= λ _. k

-- `map_err(|e| (e, ack))`, `ok_or_else`, and a test.
abbrev pub with_ack {ℓ} : {A : Type ℓ} → Bool → Result A → Reply A
with_ack ack (ok a) = good a
with_ack ack (err e) = bad e ack

abbrev pub present {ℓ} : {A : Type ℓ} → Error → Bool → Option A → Reply A
present e ack none = bad e ack
present e ack (some a) = good a

abbrev pub require : Bool → Error → Bool → Reply (Unit {0})
require true e ack = good tt
require false e ack = bad e ack

-- What a packet can change.
pub record Shared (Map : Type 0) : Type 0 where
  pub db : ClientDb Map
  pub replicated : List Replicated

-- The operation, the priority and the topic in front of the block's first zero byte.
abbrev pub block_head : Bytes → Reply (Bool × ℕ × Bytes)
block_head [] = bad (error_invalid_data (text "invalid data block" ∷ [])) false
block_head (op ∷ []) = bad (error_invalid_data (text "invalid data block" ∷ [])) false
block_head (op ∷ priority ∷ []) = bad (error_invalid_data (text "invalid data block" ∷ [])) false
block_head (op ∷ priority ∷ c ∷ topic) =
    if op == op_publish
    then good (true, priority, c ∷ topic)
    else if op == op_publish_no_ack
    then good (false, priority, c ∷ topic)
    else bad (error_invalid_data (text "invalid opration: " ∷ hex op ∷ [])) false

-- `EncryptionType::from_byte(frame[4])`; the frame is long enough.
abbrev pub byte_type : Bytes → Result EncryptionType
byte_type [] = err from_utf8_error
byte_type (b ∷ bytes) = from_byte b

module _ (C : Crypto) (cfg : Settings) (guards : Guards) where
  -- The check of the password; a decrypted packet has none.
  unfoldable pub authorize : Bytes → Option Bytes → Bool → Reply (Unit {0})
  unfolding verify
  authorize login none need_ack = good tt
  authorize login (some password) need_ack =
      if is_empty login && is_empty password
      then require cfg.allow_anonymous (error_access (text "anonymous access failed" ∷ [])) need_ack
      else require (verify C guards.password_db login password)
          (error_access (text "authentication failed" ∷ [])) need_ack

  -- The tests of `process_udp_block` behind the block's parts; the result is the prepared topic.
  unfoldable pub admit : Bytes → Option Bytes → Bool → Bytes → Reply Bytes
  unfolding authorize prepare_topic
  admit login password need_ack name = do
    authorize login password need_ack
    acl ←
        present (error_access (text "No ACL for " ∷ shown (format_login login) ∷ [])) need_ack
          (get_acl guards.acl_db (user_of login))
    topic ← with_ack need_ack (prepare_topic cfg.max_topic_depth name)
    require (if has_invalid_symbols topic then false else true)
        (error_invalid_data (text "Invalid data block" ∷ [])) need_ack
    require (allow_write acl topic)
        (error_access (text "pub access denied for " ∷ shown topic ∷ [])) need_ack
    good topic

  -- The parts of the block: the head and the data.
  unfoldable pub block_parts : Bytes → Reply (Bool × ℕ × Bytes × Bytes)
  block_parts block = do
    let parts = splitn2 0 block
    (need_ack, priority, name) ← block_head parts.0
    topic ← with_ack need_ack (from_utf8 name)
    message ← present (error_invalid_data (text "data missing" ∷ [])) need_ack parts.1
    good (need_ack, priority, topic, message)

  -- The block of a packet: what it admits to publish. `none` for a password that was not asked for.
  unfoldable pub open_block : Bytes → Option Bytes → Bytes → Reply (Bool × ℕ × Bytes × Bytes)
  unfolding block_parts admit
  open_block login password block = do
    (need_ack, priority, name, message) ← block_parts block
    topic ← admit login password need_ack name
    good (need_ack, priority, topic, message)

  -- The checks of `process_udp_packet`: the type of the encryption and what follows it.
  unfoldable pub packet_head : Bytes → Reply (EncryptionType × Bytes)
  unfolding from_byte of_le
  packet_head frame = do
    require (if ltb (length frame) 5 then false else true)
        (error_invalid_data (text "packet too small" ∷ [])) false
    require (beq (take 2 frame) control_header) (error_invalid_data (text "invalid header" ∷ []))
        false
    require (of_le (take 2 (drop 2 frame)) == protocol_version)
        (error_invalid_data (text "unsupported protocol version" ∷ [])) false
    etp ← with_ack false (byte_type (drop 4 frame))
    good (etp, drop 5 frame)

  unfoldable pub open_encrypted :
      EncryptionType → Bytes → Option Bytes → Reply (Bytes × Option Bytes × Bytes)
  unfolding auth_and_decr
  open_encrypted etp login rest = do
    coded ← present (error_invalid_data (text "encryption block missing" ∷ [])) false rest
    block ← with_ack false (auth_and_decr C guards.key_db coded (user_of login) etp)
    good (login, none, block)

  unfoldable pub open_plain : Bytes → Option Bytes → Reply (Bytes × Option Bytes × Bytes)
  unfolding splitn2
  open_plain login rest = do
    block ← present (error_invalid_data (text "invalid packet format" ∷ [])) false rest
    let parts = splitn2 0 block
    password ← with_ack false (from_utf8 parts.0)
    data_block ← present (error_invalid_data (text "data missing" ∷ [])) false parts.1
    good (login, some password, data_block)

  -- The login, the password and the block of a packet.
  unfoldable pub open_packet : Bytes → Reply (Bytes × Option Bytes × Bytes)
  unfolding packet_head open_encrypted open_plain
  open_packet frame = do
    (etp, body) ← packet_head frame
    let parts = splitn2 0 body
    login ← with_ack false (from_utf8 parts.0)
    if need_decrypt etp then open_encrypted etp login parts.1 else open_plain login parts.1

module _ {Map : Type 0} (S : SubMap Map) (C : Crypto) (cfg : Settings) (guards : Guards) where
  -- `if !subscribers.is_empty()`.
  abbrev pub push_if_any : List ServerClient → ℕ → Bytes → Bytes → ℕ → ClientDb Map → ClientDb Map
  push_if_any [] priority topic message timestamp db = db
  push_if_any (c ∷ subscribers) priority topic message timestamp db =
      push_to_subscribers (c ∷ subscribers) priority topic message timestamp db

  -- The message goes to the subscribers and to replication.
  abbrev pub spread : ℕ → ℕ → Bytes → Bytes → Shared Map → Shared Map
  spread timestamp priority topic message s =
      let call : Replicated = record {
        priority = priority;
        topic = topic;
        message = message;
        timestamp = timestamp;
      } in
      record {
        db = push_if_any (get_subscribers S topic s.db) priority topic message timestamp s.db;
        replicated = if cfg.cluster then s.replicated ++ call ∷ [] else s.replicated;
      }

  abbrev pub spread_admitted :
      ℕ → Shared Map → Reply (Bool × ℕ × Bytes × Bytes) → Reply Bool × Shared Map
  spread_admitted timestamp s (bad e ack) = (bad e ack, s)
  spread_admitted timestamp s (good (need_ack, priority, topic, message)) =
      (good need_ack, spread timestamp priority topic message s)

  unfoldable pub process_udp_block :
      Bytes → Option Bytes → Bytes → ℕ → Shared Map → Reply Bool × Shared Map
  unfolding open_block push_to_subscribers
  process_udp_block login password block timestamp s =
      spread_admitted timestamp s (open_block C cfg guards login password block)

  abbrev pub process_opened :
      ℕ → Shared Map → Reply (Bytes × Option Bytes × Bytes) → Reply Bool × Shared Map
  process_opened timestamp s (bad e ack) = (bad e ack, s)
  process_opened timestamp s (good (login, password, block)) =
      process_udp_block login password block timestamp s

  -- The packet that came at the time `timestamp`.
  unfoldable pub process_udp_packet : Bytes → ℕ → Shared Map → Reply Bool × Shared Map
  unfolding open_packet process_udp_block
  process_udp_packet frame timestamp s = process_opened timestamp s (open_packet C cfg guards frame)

-- What `handle_udp_listener` sends back, if anything.
unfoldable pub ack_code : Reply Bool → Option ℕ
ack_code (good true) = some response_ok
ack_code (good false) = none
ack_code (bad e true) = some (if is_access e then response_err_access else response_err)
ack_code (bad e false) = none

unfoldable pub ack_frame : ℕ → Bytes
unfolding le16
ack_frame code = control_header ++ (le16 protocol_version ++ code ∷ [])
