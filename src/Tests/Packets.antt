-- ===== src/Tests/Packets.antt =====
-- UDP packets, with a password, encrypted, and malformed.
use psrt.Prelude.{List, ◌≤◌, ◌+◌, ◌≡◌, ◌⊎◌, refl, true, none, some, [], ◌∷◌, ◌++◌, arith}
use psrt.Prelude.Bytes.{Bytes, codes, beq, has}
use psrt.Prelude.Utf8.{is_utf8}
use psrt.Prelude.Assoc.{lookup}
use psrt.Wire.{op_publish, response_ok}
use psrt.Fault.{ok, error_io, text}
use psrt.Acl.{new_full, get_acl, allow_write}
use psrt.Topic.{has_invalid_symbols}
use psrt.Keys.{Crypto, CryptoLaws, Key}
use psrt.Udp.{Shared, process_udp_packet, process_udp_block, spread_admitted, ack_code, ack_frame}
use psrt.Guards.{Guards}
use psrt.Udp.Client.{UdpClient, connected, with_encryption_auth, packet}
use psrt.Udp.Opening.{admitted, seen}
use psrt.Udp.Reading.{process_udp_packet-packet}
use psrt.Udp.Admission.{Accepted, process_udp_packet-cases, process_udp_block_zero_priority}
use psrt.Udp.Listening.{
  Arrival, received, socket_error, Listener, handle_udp_listener, sent_to, received_from,
  handle_udp_listener-IsSound,
}
use psrt.Control.Keeping.{IsSound}
use psrt.Tests.ListedMap.{ListedMap, listed_map}
use psrt.Tests.ListedLaws.{listed_laws}
use psrt.Tests.Database.{subscribed_db, subscribed_db-WellFormed, queues_fit}
use psrt.Tests.Sessions.{limits}

abbrev zeros : Bytes
zeros = 0 ∷ 0 ∷ 0 ∷ 0 ∷ 0 ∷ 0 ∷ 0 ∷ 0 ∷ 0 ∷ 0 ∷ 0 ∷ 0 ∷ 0 ∷ 0 ∷ 0 ∷ 0 ∷ []

-- A cipher that changes nothing and whose digest is zero, and hashes that are the passwords.
abbrev pub plain_crypto : Crypto
plain_crypto = record {
  encrypt_aead = λ cipher key iv plain. ok (plain, zeros);
  decrypt_aead = λ cipher key iv coded tag. ok coded;
  bcrypt_verify = λ password hash. ok (beq password hash);
}

plain_laws : CryptoLaws plain_crypto
plain_laws = record {
  tag_length = λ cipher key iv plain coded tag h. ground arith;
  coded_length = λ cipher key iv plain coded tag h. ground arith;
  decrypts = λ cipher key iv plain coded tag h. ground arith;
}

abbrev secret : Bytes
secret = 0 ∷ 1 ∷ 2 ∷ []

abbrev ann_key : Key
ann_key = record { cipher_aes_128 = []; cipher_aes_256 = secret }

abbrev pub guards : Guards
guards = record {
  acl_db = record { acls = (codes "ann", new_full) ∷ [] };
  password_db = some ((codes "ann", codes "pw") ∷ []);
  key_db = some ((codes "ann", ann_key) ∷ []);
}

abbrev shared : Shared ListedMap
shared = record { db = subscribed_db; replicated = [] }

abbrev sender : UdpClient
sender = with_encryption_auth connected (codes "ann") secret

abbrev nonce : Bytes
nonce = 1 ∷ 2 ∷ 3 ∷ 4 ∷ 5 ∷ 6 ∷ 7 ∷ 8 ∷ 9 ∷ 10 ∷ 11 ∷ 0 ∷ []

abbrev frame : Bytes
frame =
    0xee
    ∷ 0xaa
    ∷ 1
    ∷ 0
    ∷ 3
    ∷ (codes "ann" ++ 0 ∷ (nonce ++ ((1 ∷ 0x7f ∷ (codes "a/b" ++ 0 ∷ codes "hot")) ++ zeros)))

frame_sent : packet plain_crypto sender nonce (codes "a/b") (codes "hot") true ≡ ok frame
unfolding packet
frame_sent = refl

process_udp_packet-packet_example :
    process_udp_packet listed_map plain_crypto limits guards frame 7000 shared
    ≡ spread_admitted listed_map plain_crypto limits guards 7000 shared (
        admitted plain_crypto limits guards
          (codes "ann")
          (seen plain_crypto limits guards sender)
          true
          (codes "a/b")
          (codes "hot"))
unfolding has is_utf8 lookup
process_udp_packet-packet_example =
    process_udp_packet-packet listed_map plain_crypto plain_laws limits guards sender nonce
      (codes "a/b") (codes "hot") true 7000 shared frame_sent refl refl
      (refl, (ann_key, refl, refl)) (cc, refl, refl)

process_udp_packet-cases_example :
    Accepted listed_map plain_crypto limits guards frame 7000 shared
      (process_udp_packet listed_map plain_crypto limits guards frame 7000 shared).1
    ⊎ ((process_udp_packet listed_map plain_crypto limits guards frame 7000 shared).1 ≡ shared)
process_udp_packet-cases_example =
    process_udp_packet-cases listed_map plain_crypto limits guards frame 7000 shared

abbrev zero_block : Bytes
zero_block = op_publish ∷ 0 ∷ (codes "a/b" ++ 0 ∷ codes "hot")

process_udp_block_zero_priority_example :
    ((process_udp_block listed_map plain_crypto limits guards
        (codes "ann")
        none
        zero_block
        7000
        shared).1
      ≡ shared)
    × (ack_code
          (process_udp_block listed_map plain_crypto limits guards
            (codes "ann")
            none
            zero_block
            7000
            shared).0
        ≡ none)
process_udp_block_zero_priority_example =
    process_udp_block_zero_priority listed_map plain_crypto limits guards (codes "ann") none
      op_publish (codes "a/b") (codes "hot") 7000 shared (omega arith)

-- A request that is answered, an error of the socket, and a packet that is too small.
abbrev arrivals : List Arrival
arrivals =
    received frame (codes "peer") 7000
    ∷ socket_error (error_io (text "reset" ∷ []))
    ∷ received (1 ∷ 2 ∷ []) (codes "peer") 8000
    ∷ []

abbrev listener : Listener ListedMap
listener = record { shared = shared; sent = [] }

abbrev listened : Listener ListedMap
listened = handle_udp_listener listed_map plain_crypto limits guards 4096 arrivals listener

one_answer : listened.sent ≡ (codes "peer", ack_frame response_ok) ∷ []
unfolding handle_udp_listener has is_utf8 lookup get_acl has_invalid_symbols allow_write
one_answer = refl

handle_udp_listener-IsSound_example :
    IsSound listed_map listed_laws listened.shared.db
    × ((addr : Bytes)
        → sent_to addr listened.sent ≤ sent_to addr listener.sent + received_from addr arrivals)
handle_udp_listener-IsSound_example =
    handle_udp_listener-IsSound listed_map listed_laws plain_crypto limits guards 4096 arrivals
      listener (subscribed_db-WellFormed, queues_fit)
