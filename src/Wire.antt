-- ===== src/Wire.antt =====
-- src/lib.rs: the constants of the protocol.
use psrt.Prelude.{ℕ, [], ◌∷◌, ◌%◌, ◌^◌}
use psrt.Prelude.Bytes.{Bytes}

abbrev pub default_priority : ℕ
default_priority = 0x7f

abbrev pub control_header : Bytes
control_header = 0xee ∷ 0xaa ∷ []

abbrev pub data_header : Bytes
data_header = 0xee ∷ 0xab ∷ []

abbrev pub protocol_version : ℕ
protocol_version = 1

abbrev pub op_nop : ℕ
op_nop = 0x00

abbrev pub response_ok : ℕ
response_ok = 0x01

abbrev pub response_ok_waiting : ℕ
response_ok_waiting = 0x02

abbrev pub response_not_required : ℕ
response_not_required = 0xe0

abbrev pub response_err : ℕ
response_err = 0xff

abbrev pub response_err_access : ℕ
response_err_access = 0xfe

abbrev pub op_publish : ℕ
op_publish = 0x01

abbrev pub op_publish_repl : ℕ
op_publish_repl = 0x11

abbrev pub op_publish_no_ack : ℕ
op_publish_no_ack = 0x21

abbrev pub op_subscribe : ℕ
op_subscribe = 0x02

abbrev pub op_unsubscribe : ℕ
op_unsubscribe = 0x03

abbrev pub op_bye : ℕ
op_bye = 0xff

abbrev pub comm_insecure : ℕ
comm_insecure = 0x00

abbrev pub comm_tls : ℕ
comm_tls = 0x01

abbrev pub auth_login_pass : ℕ
auth_login_pass = 0x00

abbrev pub auth_key_aes128_gcm : ℕ
auth_key_aes128_gcm = 0x02

abbrev pub auth_key_aes256_gcm : ℕ
auth_key_aes256_gcm = 0x03

-- The casts `as u32` and `as u64`, and sums at that width, cut off what exceeds it.
abbrev pub u32 : ℕ → ℕ
u32 n = n % 2 ^ 32

abbrev pub u64 : ℕ → ℕ
u64 n = n % 2 ^ 64
