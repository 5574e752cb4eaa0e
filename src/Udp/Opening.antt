-- ===== src/Udp/Opening.antt =====
-- The server opens the packets of `UdpClient`, in plain text and encrypted.
use psrt.Prelude.{
  ℕ, ◌-◌, ◌≤◌, ◌≡◌, ◌≢◌, refl, sym, Bool, true, false, Option, none, some, [], ◌∷◌, ◌++◌, arith,
  ltb, if◌then◌else◌, length, length-append, take, drop, take-append, drop-append,
}
use psrt.Prelude.Bytes.{Bytes, has, beq}
use psrt.Prelude.Split.{splitn2, splitn2-append}
use psrt.Prelude.Words.{le16, of_le}
use psrt.Prelude.Utf8.{is_utf8}
use psrt.Wire.{
  op_publish, op_publish_no_ack, default_priority, auth_login_pass, auth_key_aes256_gcm,
}
use psrt.Fault.{Result, ok, err}
use psrt.Server.{Settings}
use psrt.Keys.{
  Crypto, CryptoLaws, Key, EncryptionType, no, aes256_gcm, aes_256_gcm, from_byte, key_of, decrypt,
  decrypt_with, auth_and_decr,
}
use psrt.Udp.{
  Reply, good, ◌>>=◌, block_head, admit, block_parts, open_block, packet_head, open_encrypted,
  open_plain, open_packet,
}
use psrt.Guards.{Guards, user_of}
use psrt.Udp.Client.{UdpClient, op_of, msg_buf, packet_start, packet}

module _ (C : Crypto) (cfg : Settings) (guards : Guards) where
  packet_head-start :
      (kind : ℕ) (etp : EncryptionType) (body : Bytes)
      → from_byte kind ≡ ok etp
      → packet_head C cfg guards (packet_start ++ kind ∷ body) ≡ good (etp, body)
  unfolding packet_head le16 of_le beq
  packet_head-start kind etp body h = ground (arith, h)

  block_head-msg_buf :
      (ack : Bool) (topic : Bytes)
      → topic ≢ []
      → block_head (op_of ack ∷ default_priority ∷ topic) ≡ good (ack, default_priority, topic)
  block_head-msg_buf ack [] n = absurd (n refl)
  block_head-msg_buf true (c ∷ topic) n = refl
  block_head-msg_buf false (c ∷ topic) n = refl

  splitn2-msg_buf :
      (ack : Bool) (topic message : Bytes)
      → has 0 topic ≡ false
      → splitn2 0 (msg_buf ack topic message) ≡ (op_of ack ∷ default_priority ∷ topic, some message)
  unfolding has
  splitn2-msg_buf true topic message clean =
      splitn2-append 0 (op_publish ∷ default_priority ∷ topic) message clean
  splitn2-msg_buf false topic message clean =
      splitn2-append 0 (op_publish_no_ack ∷ default_priority ∷ topic) message clean

  -- A topic as a packet can carry it.
  abbrev pub IsName : Bytes → Type 0
  IsName t = (t ≢ []) × (has 0 t ≡ false) × (is_utf8 t ≡ true)

  -- What the server admits of a message to publish.
  abbrev pub admitted :
      Bytes → Option Bytes → Bool → Bytes → Bytes → Reply (Bool × ℕ × Bytes × Bytes)
  admitted login password ack topic message = do
    prepared ← admit C cfg guards login password ack topic
    good (ack, default_priority, prepared, message)

  pub open_block-msg_buf :
      (login : Bytes) (password : Option Bytes) (ack : Bool) (topic message : Bytes)
      → IsName topic
      → open_block C cfg guards login password (msg_buf ack topic message)
        ≡ admitted login password ack topic message
  unfolding open_block block_parts
  open_block-msg_buf login password ack topic message (n, clean, valid) =
      rw (splitn2-msg_buf ack topic message clean, block_head-msg_buf ack topic n, valid) refl

  open_packet-plain :
      (login password block : Bytes)
      → has 0 login ≡ false
      → is_utf8 login ≡ true
      → has 0 password ≡ false
      → is_utf8 password ≡ true
      → open_packet C cfg guards
          (packet_start ++ auth_login_pass ∷ (login ++ 0 ∷ (password ++ 0 ∷ block)))
        ≡ good (login, some password, block)
  unfolding open_packet open_plain
  open_packet-plain login password block clean valid clean_pass valid_pass =
      rw
        (
          packet_head-start auth_login_pass no (login ++ 0 ∷ (password ++ 0 ∷ block))
              (unfold from_byte in refl),
          splitn2-append 0 login (password ++ 0 ∷ block) clean,
          valid,
          splitn2-append 0 password block clean_pass,
          valid_pass,
        )
        refl

  auth_and_decr-encrypted :
      (L : CryptoLaws C) (login nonce plain coded tag : Bytes) {key : Key}
      → key_of C (user_of login) guards.key_db ≡ some key
      → length nonce ≡ 12
      → 1 ≤ length plain
      → C.encrypt_aead aes_256_gcm key.cipher_aes_256 nonce plain ≡ ok (coded, tag)
      → auth_and_decr C guards.key_db (nonce ++ (coded ++ tag)) (user_of login) aes256_gcm
        ≡ ok plain
  unfolding auth_and_decr decrypt_with decrypt
  auth_and_decr-encrypted L login nonce plain coded tag {key} known twelve some_plain e =
      let tag_16 = L.tag_length aes_256_gcm key.cipher_aes_256 nonce plain coded tag e in
      let same = L.coded_length aes_256_gcm key.cipher_aes_256 nonce plain coded tag e in
      let len = length-append nonce (coded ++ tag) in
      let len_coded = length-append coded tag in
      let long : ltb (length (nonce ++ (coded ++ tag))) 29 ≡ false =
        ground (arith, len, len_coded, tag_16, same, twelve, some_plain) in
      let pos : length (coded ++ tag) - 16 ≡ length coded = omega (arith, len_coded, tag_16) in
      let front : take 12 (nonce ++ (coded ++ tag)) ≡ nonce =
        rw (sym twelve) (take-append nonce (coded ++ tag)) in
      let back : drop 12 (nonce ++ (coded ++ tag)) ≡ coded ++ tag =
        rw (sym twelve) (drop-append nonce (coded ++ tag)) in
      rw (known, long, front, back, decrypt, pos, take-append coded tag, drop-append coded tag)
        (L.decrypts aes_256_gcm key.cipher_aes_256 nonce plain coded tag e)

  open_packet-encrypted :
      (login coded plain : Bytes)
      → has 0 login ≡ false
      → is_utf8 login ≡ true
      → auth_and_decr C guards.key_db coded (user_of login) aes256_gcm ≡ ok plain
      → open_packet C cfg guards (packet_start ++ auth_key_aes256_gcm ∷ (login ++ 0 ∷ coded))
        ≡ good (login, none, plain)
  unfolding open_packet open_encrypted
  open_packet-encrypted login coded plain clean valid opened =
      rw
        (
          packet_head-start auth_key_aes256_gcm aes256_gcm (login ++ 0 ∷ coded)
              (unfold from_byte in refl),
          splitn2-append 0 login coded clean,
          valid,
          opened,
        )
        refl

  -- The credentials as a packet can carry them: a password is UTF-8 without zero bytes; a key is the
  -- server's, and its nonce has 12 bytes.
  abbrev pub Carries : Bool → Bytes → Bytes → Bytes → Type 0
  Carries false login password nonce = (has 0 password ≡ false) × (is_utf8 password ≡ true)
  Carries true login password nonce =
      (length nonce ≡ 12)
      × ((key : Key) × (key_of C (user_of login) guards.key_db ≡ some key)
          × (key.cipher_aes_256 ≡ password))

  -- The password that the server checks.
  abbrev pub seen : UdpClient → Option Bytes
  seen client = if client.encrypt then none else some client.password

  pub open_packet-packet :
      (L : CryptoLaws C) (encrypt : Bool) (login password nonce topic message : Bytes) (ack : Bool)
      {frame : Bytes}
      → packet C
          (record { login = login; password = password; encrypt = encrypt })
          nonce
          topic
          message
          ack
        ≡ ok frame
      → has 0 login ≡ false
      → is_utf8 login ≡ true
      → Carries encrypt login password nonce
      → open_packet C cfg guards frame
        ≡ good (login, (if encrypt then none else some password), msg_buf ack topic message)
  unfolding packet
  open_packet-packet L false login password nonce topic message ack {frame} e clean valid
        (clean_pass, valid_pass) =
      let same : packet_start
            ++ auth_login_pass ∷ (login ++ 0 ∷ (password ++ 0 ∷ msg_buf ack topic message))
          ≡ frame =
        cc in
      rw (sym same) (
        open_packet-plain login password (msg_buf ack topic message) clean valid clean_pass
          valid_pass)
  open_packet-packet L true login password nonce topic message ack {frame} e clean valid
        (twelve, (key, known, is_key)) =
      go (C.encrypt_aead aes_256_gcm password nonce plain) refl
    where
      plain : Bytes
      plain = msg_buf ack topic message

      go :
          (r : Result (Bytes × Bytes))
          → C.encrypt_aead aes_256_gcm password nonce plain ≡ r
          → open_packet C cfg guards frame ≡ good (login, none, plain)
      go (err f) r_eq = absurd (ground (arith, e, r_eq))
      go (ok (coded, tag)) r_eq =
          let same : packet_start ++ auth_key_aes256_gcm ∷ (login ++ 0 ∷ (nonce ++ (coded ++ tag)))
              ≡ frame =
            ground (arith, e, r_eq) in
          rw (sym same) (
            open_packet-encrypted login (nonce ++ (coded ++ tag)) plain clean valid (
              auth_and_decr-encrypted L login nonce plain coded tag known twelve (omega arith)
                (rw is_key r_eq)))
