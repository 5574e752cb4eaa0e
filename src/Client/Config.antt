-- ===== src/Client/Config.antt =====
-- src/client.rs: `Config` and its builder; `is_unix_socket` of src/lib.rs. A duration is a number of
-- nanoseconds.
use psrt.Prelude.{
  ℕ, ◌*◌, ◌-◌, Bool, true, false, ◌&&◌, Option, none, some, [], ◌∷◌, ◌||◌, leb, ◌==◌, if◌then◌else◌,
  length, drop,
}
use psrt.Prelude.Bytes.{Bytes, codes, beq, has}

-- `Duration::from_secs` and `Duration::from_millis`.
abbrev pub seconds : ℕ → ℕ
seconds n = n * 1000000000

abbrev pub milliseconds : ℕ → ℕ
milliseconds n = n * 1000000

abbrev pub default_timeout : ℕ
default_timeout = seconds 5

abbrev pub default_queue_size : ℕ
default_queue_size = 8192

pub record Config : Type 0 where
  pub path : Bytes
  pub user : Bytes
  pub password : Bytes
  pub timeout : ℕ
  pub socket_wait_timeout : ℕ
  pub queue_size : ℕ
  pub tls : Bool
  pub tls_ca : Option Bytes
  pub need_data_stream : Bool

abbrev pub new : Bytes → Config
new path = record {
  path = path;
  user = [];
  password = [];
  timeout = default_timeout;
  socket_wait_timeout = default_timeout;
  queue_size = default_queue_size;
  tls = false;
  tls_ca = none;
  need_data_stream = true;
}

abbrev pub set_auth : Bytes → Bytes → Config → Config
set_auth user password c = record c { user = user; password = password }

abbrev pub disable_data_stream : Config → Config
disable_data_stream c = record c { need_data_stream = false }

abbrev pub set_timeout : ℕ → Config → Config
set_timeout timeout c = record c { timeout = timeout }

abbrev pub set_socket_wait_timeout : ℕ → Config → Config
set_socket_wait_timeout timeout c = record c { socket_wait_timeout = timeout }

abbrev pub set_queue_size : ℕ → Config → Config
set_queue_size size c = record c { queue_size = size }

abbrev pub set_tls : Bool → Config → Config
set_tls tls c = record c { tls = tls }

abbrev pub set_tls_ca : Option Bytes → Config → Config
set_tls_ca ca c = record c { tls_ca = ca }

abbrev pub update_tls_ca : Bytes → Config → Config
update_tls_ca value c = record c { tls_ca = some value }

abbrev pub update_path : Bytes → Config → Config
update_path path c = record c { path = path }

-- `ends_with`.
abbrev pub ends_with : Bytes → Bytes → Bool
ends_with path suffix =
    leb (length suffix) (length path) && beq (drop (length path - length suffix) path) suffix

unfoldable pub is_unix_socket : Bytes → Bool
unfolding beq
is_unix_socket path = ends_with path (codes ".sock") || ends_with path (codes ".socket")

-- `rsplitn(2, ':').last()`: what stands before the last colon, or all of it.
unfoldable pub domain_of : Bytes → Bytes
unfolding has
domain_of [] = []
domain_of (c ∷ path) = if has 58 path then c ∷ domain_of path else if c == 58 then [] else c ∷ path
