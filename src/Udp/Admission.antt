-- ===== src/Udp/Admission.antt =====
-- Who may publish by UDP.
use psrt.Prelude.{ℕ, ◌≡◌, ◌≢◌, ◌⊎◌, refl, Bool, false, Option, none, [], ◌∷◌, ◌++◌, arith, inl, inr}
use psrt.Prelude.Bytes.{Bytes, has}
use psrt.Prelude.Split.{splitn2-append}
use psrt.PubSub.Submap.{SubMap}
use psrt.Server.{Settings}
use psrt.Keys.{Crypto}
use psrt.Udp.{
  good, Shared, admit, block_parts, open_block, open_packet, spread, process_udp_block,
  process_udp_packet, ack_code,
}
use psrt.Guards.{Guards}
use psrt.Udp.Authentic.{Reply-cases, Admitted, admit-Admitted, IsSealed, open_packet-IsSealed}

has_one : (op : ℕ) → op ≢ 0 → has 0 (op ∷ []) ≡ false
unfolding has
has_one op h = ground (arith, h)

module _ {Map : Type 0} (S : SubMap Map) (C : Crypto) (cfg : Settings) (guards : Guards) where
  -- A packet from a login that was let in: its block holds a name and a message, and the prepared
  -- topic may be written to by that login.
  pub record Accepted (frame : Bytes) (timestamp : ℕ) (s s' : Shared Map) : Type 0 where
    pub login : Bytes
    pub password : Option Bytes
    pub block : Bytes
    pub name : Bytes
    pub topic : Bytes
    pub priority : ℕ
    pub message : Bytes
    pub opened : open_packet C cfg guards frame ≡ good (login, password, block)
    pub sealed : IsSealed C cfg guards login password block
    pub ack : Bool
    pub parts : block_parts C cfg guards block ≡ good (ack, priority, name, message)
    pub admitted : Admitted C cfg guards login password name topic
    pub effect : s' ≡ spread S C cfg guards timestamp priority topic message s

  process_udp_block-cases :
      (frame login block : Bytes) (password : Option Bytes) (timestamp : ℕ) (s : Shared Map)
      → open_packet C cfg guards frame ≡ good (login, password, block)
      → Accepted frame timestamp s
          (process_udp_block S C cfg guards login password block timestamp s).1
        ⊎ ((process_udp_block S C cfg guards login password block timestamp s).1 ≡ s)
  unfolding process_udp_block open_block
  process_udp_block-cases frame login block password timestamp s opened =
      elim (Reply-cases (block_parts C cfg guards block)) [
        | inr (e, (a, never)) ↦ inr (ground (arith, never))
        | inl ((ack, priority, name, message), parts) ↦
            elim (Reply-cases (admit C cfg guards login password ack name)) [
              | inr (e, (a, never)) ↦ inr (ground (arith, parts, never))
              | inl (topic, passed) ↦ inl (record {
                login = login;
                password = password;
                block = block;
                name = name;
                topic = topic;
                priority = priority;
                message = message;
                opened = opened;
                sealed = open_packet-IsSealed C cfg guards frame opened;
                ack = ack;
                parts = parts;
                admitted = admit-Admitted C cfg guards login password ack name passed;
                effect = ground (arith, parts, passed);
              })
            ]
      ]

  -- Whatever bytes come as a packet, either nothing changes, or the packet opens to a login, a
  -- password that was verified (or an anonymous login where that is allowed, or a block that the key
  -- of the login decrypted), a name and a message; the access list of the login allows writing to
  -- the prepared name, which holds no `#` or `+`; and the change is that this message was pushed to
  -- the subscribers and to replication.
  pub process_udp_packet-cases :
      (frame : Bytes) (timestamp : ℕ) (s : Shared Map)
      → Accepted frame timestamp s (process_udp_packet S C cfg guards frame timestamp s).1
        ⊎ ((process_udp_packet S C cfg guards frame timestamp s).1 ≡ s)
  unfolding process_udp_packet
  process_udp_packet-cases frame timestamp s = elim (Reply-cases (open_packet C cfg guards frame)) [
    | inr (e, (a, never)) ↦ inr (ground (arith, never))
    | inl ((login, password, block), opened) ↦
        rw (opened, process_udp_packet)
          (process_udp_block-cases frame login block password timestamp s opened)
  ]

  -- A block whose priority is zero is refused without an acknowledgment, even if it asks for one,
  -- though every byte is a priority for `OP_PUBLISH` on a control connection: the priority's own
  -- zero byte ends the head of the block.
  pub process_udp_block_zero_priority :
      (login : Bytes) (password : Option Bytes) (op : ℕ) (topic message : Bytes) (timestamp : ℕ)
      (s : Shared Map)
      → op ≢ 0
      → ((process_udp_block S C cfg guards login password
            (op ∷ 0 ∷ (topic ++ 0 ∷ message))
            timestamp
            s).1
          ≡ s)
        × (ack_code
              (process_udp_block S C cfg guards login password
                (op ∷ 0 ∷ (topic ++ 0 ∷ message))
                timestamp
                s).0
            ≡ none)
  unfolding process_udp_block open_block block_parts ack_code
  process_udp_block_zero_priority login password op topic message timestamp s h =
      rw (splitn2-append 0 (op ∷ []) (topic ++ 0 ∷ message) (has_one op h)) (refl, refl)
