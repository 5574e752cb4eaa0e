-- ===== src/Udp/Reading.antt =====
-- The server opens the packets of `UdpClient` as what they were made of.
use psrt.Prelude.{ℕ, ◌≡◌, ◌↔◌, refl, Bool, true, false, some, arith}
use psrt.Prelude.Bytes.{Bytes, has, beq}
use psrt.Prelude.Words.{le16}
use psrt.Prelude.Utf8.{is_utf8}
use psrt.Wire.{}
use psrt.Fault.{ok}
use psrt.PubSub.Submap.{SubMap}
use psrt.Server.{Settings}
use psrt.Keys.{Crypto, CryptoLaws}
use psrt.Udp.{
  Reply, good, bad, Shared, spread_admitted, process_udp_block, process_udp_packet, ack_code,
  ack_frame,
}
use psrt.Guards.{Guards}
use psrt.Udp.Client.{UdpClient, packet, check_ack}
use psrt.Udp.Opening.{IsName, admitted, Carries, seen, open_packet-packet, open_block-msg_buf}

module _ {Map : Type 0} (S : SubMap Map) (C : Crypto) (L : CryptoLaws C) (cfg : Settings)
    (guards : Guards) where
  -- A packet that the client makes of a topic and a message, with a password or encrypted with the
  -- key that the server has for the login, is to the server a request of this login to publish this
  -- message, with the default priority and with an acknowledgment exactly if the client asked for
  -- it, if topic, login and password are UTF-8 without zero bytes, the topic is not empty and the
  -- nonce has 12 bytes.
  pub process_udp_packet-packet :
      (client : UdpClient) (nonce topic message : Bytes) (ack : Bool) {frame : Bytes}
      (timestamp : ℕ) (s : Shared Map)
      → packet C client nonce topic message ack ≡ ok frame
      → has 0 client.login ≡ false
      → is_utf8 client.login ≡ true
      → Carries C cfg guards client.encrypt client.login client.password nonce
      → IsName C cfg guards topic
      → process_udp_packet S C cfg guards frame timestamp s
        ≡ spread_admitted S C cfg guards timestamp s
            (admitted C cfg guards client.login (seen C cfg guards client) ack topic message)
  unfolding process_udp_packet process_udp_block
  process_udp_packet-packet client nonce topic message ack {frame} timestamp s e clean valid carried
        name =
      rw
        (
          open_packet-packet C cfg guards L client.encrypt client.login client.password nonce topic
              message ack e clean valid carried,
          open_block-msg_buf C cfg guards client.login (seen C cfg guards client) ack topic message
              name,
        )
        refl

-- If the server sends an acknowledgment for a reply, the client takes it as a success exactly if the
-- packet was admitted.
pub check_ack-ack_frame :
    (reply : Reply Bool) {code : ℕ}
    → ack_code reply ≡ some code
    → (check_ack (ack_frame code) ≡ ok tt) ↔ (reply ≡ good true)
unfolding check_ack ack_frame ack_code le16 beq
check_ack-ack_frame (good true) h = (λ _. refl, λ _. ground (arith, h))
check_ack-ack_frame (good false) h = absurd (ground (arith, h))
check_ack-ack_frame (bad e false) h = absurd (ground (arith, h))
check_ack-ack_frame (bad e true) h =
    (λ p. absurd (ground (arith, h, p)), λ p. absurd (ground (arith, p)))
