-- ===== src/Udp/Client.antt =====
-- src/client.rs: the packets of `UdpClient::publish_impl`, and what it makes of an acknowledgment.
use psrt.Prelude.{
  ℕ, Bool, true, false, List, [], ◌∷◌, ◌++◌, if◌then◌else◌, ◌==◌, length, take, drop,
}
use psrt.Prelude.Bytes.{Bytes, beq}
use psrt.Prelude.Words.{le16}
use psrt.Wire.{
  control_header, protocol_version, op_publish, op_publish_no_ack, response_ok, default_priority,
  auth_login_pass, auth_key_aes256_gcm,
}
use psrt.Fault.{Piece, Result, ok, err, error_invalid_data, error_io, text, hex, ◌>>=◌}
use psrt.Keys.{Crypto, aes_256_gcm}

-- `UdpClient`, without its socket.
pub record UdpClient : Type 0 where
  pub login : Bytes
  pub password : Bytes
  pub encrypt : Bool

-- `connect`, `with_auth` and `with_encryption_auth`.
abbrev pub connected : UdpClient
connected = record { login = []; password = []; encrypt = false }

abbrev pub with_auth : UdpClient → Bytes → Bytes → UdpClient
with_auth client login password = record client {
  login = login;
  password = password;
  encrypt = false;
}

abbrev pub with_encryption_auth : UdpClient → Bytes → Bytes → UdpClient
with_encryption_auth client login key = record client {
  login = login;
  password = key;
  encrypt = true;
}

abbrev pub op_of : Bool → ℕ
op_of ack = if ack then op_publish else op_publish_no_ack

-- The operation, the default priority, the topic, a zero byte and the message.
abbrev pub msg_buf : Bool → Bytes → Bytes → Bytes
msg_buf ack topic message = op_of ack ∷ default_priority ∷ (topic ++ 0 ∷ message)

abbrev pub packet_start : Bytes
packet_start = control_header ++ le16 protocol_version

module _ (C : Crypto) where
  -- The packet that `publish_impl` sends; `nonce` is what `rand_bytes` gave.
  unfoldable pub packet : UdpClient → Bytes → Bytes → Bytes → Bool → Result Bytes
  unfolding le16
  packet client nonce topic message ack =
      if client.encrypt
      then (do
        (encrypted, digest) ←
            C.encrypt_aead aes_256_gcm client.password nonce (msg_buf ack topic message)
        ok (
            packet_start
            ++ auth_key_aes256_gcm ∷ (client.login ++ 0 ∷ (nonce ++ (encrypted ++ digest)))))
      else ok (
          packet_start
          ++ auth_login_pass
            ∷ (client.login ++ 0 ∷ (client.password ++ 0 ∷ msg_buf ack topic message)))

-- The byte in front of a buffer, in hexadecimal.
abbrev shown_code : Bytes → List Piece
shown_code [] = []
shown_code (b ∷ bs) = hex b ∷ []

-- The tests on an acknowledgment from the server's address.
unfoldable pub check_ack : Bytes → Result (Unit {0})
unfolding le16
check_ack ack_buf =
    if length ack_buf == 5
    then (if beq (take 2 ack_buf) control_header
        then (if beq (take 2 (drop 2 ack_buf)) (le16 protocol_version)
            then (if beq (drop 4 ack_buf) (response_ok ∷ [])
                then ok tt
                else err (error_io (text "Server response error " ∷ shown_code (drop 4 ack_buf))))
            else err (error_invalid_data (text "Invalid ack protocol version" ∷ [])))
        else err (error_invalid_data (text "Invalid ack header" ∷ [])))
    else err (error_invalid_data (text "Invalid ack size" ∷ []))
