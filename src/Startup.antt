-- ===== src/Startup.antt =====
-- src/server.rs: the configuration and the start of the server. A duration is a number of
-- nanoseconds. `none` as a result is a panic, which ends the server before it listens.
pub mod Auth
pub mod Files
pub mod Listening
use psrt.Prelude.{
  ℕ, ◌≡◌, Bool, true, false, Option, none, some, List, [], ◌∷◌, ◌++◌, if◌then◌else◌, ◌==◌, ◌||◌,
}
use psrt.Prelude.Bytes.{Bytes, codes, is_empty, beq}
use psrt.Fault.{Result, ok, err}
use psrt.Exec.{Exec, pure, change, lift, ◌>>=◌, ◌>>◌}
use psrt.Server.{Settings}
use psrt.Client.Config as Client
use psrt.Client.Config.{is_unix_socket, set_queue_size, set_timeout, update_tls_ca, seconds}

-- One string, or a list of them.
pub data StringOrList : Type 0 where
  single : Bytes → StringOrList
  multiple : List Bytes → StringOrList

-- `StringOrList::default()`, and its two conversions to a list.
abbrev pub default_list : StringOrList
default_list = multiple []

abbrev pub to_list : StringOrList → List Bytes
to_list (single s) = s ∷ []
to_list (multiple v) = v

pub record ConfigAuth : Type 0 where
  pub allow_anonymous : Bool
  pub password_file : Option Bytes
  pub key_file : Option Bytes
  pub acl : Bytes

pub record ConfigProto : Type 0 where
  pub bind : StringOrList
  pub bind_udp : StringOrList
  pub udp_frame_size : Option ℕ
  pub timeout : Option ℕ
  pub tls_pkcs12 : Option Bytes
  pub tls_cert : Option Bytes
  pub tls_key : Option Bytes
  pub fips : Bool
  pub allow_no_tls : Bool

pub record ConfigServer : Type 0 where
  pub workers : Option ℕ
  pub latency_warn : ℕ
  pub data_queue : ℕ
  pub max_topic_depth : ℕ
  pub max_pub_size : ℕ
  pub max_topic_length : ℕ
  pub pid_file : Option Bytes
  pub bind_stats : Option Bytes
  pub license : Option Bytes

pub record Config : Type 0 where
  pub server : ConfigServer
  pub proto : ConfigProto
  pub auth : ConfigAuth
  pub cluster : Option Bytes

abbrev pub or_default {ℓ} : {A : Type ℓ} → A → Option A → A
or_default d none = d
or_default d (some a) = a

-- `DEFAULT_UDP_FRAME_SIZE`, `DEFAULT_TIMEOUT_SECS` and `DEFAULT_STANDALONE_WORKERS` where nothing is
-- configured.
abbrev pub udp_frame_size : Config → ℕ
udp_frame_size c = or_default 4096 c.proto.udp_frame_size

abbrev pub timeout_of : Config → ℕ
timeout_of c = or_default (seconds 5) c.proto.timeout

abbrev pub workers_of : Config → ℕ
workers_of c = or_default 1 c.server.workers

-- The limits that `launch` stores; `cluster` is the feature.
abbrev pub settings_of : Bool → Config → Settings
settings_of cluster c = record {
  allow_anonymous = c.auth.allow_anonymous;
  max_pub_size = c.server.max_pub_size;
  max_topic_length = c.server.max_topic_length;
  max_topic_depth = c.server.max_topic_depth;
  data_queue_size = c.server.data_queue;
  latency_warn = c.server.latency_warn;
  cluster = cluster;
}

-- `starts_with(&['/', '.'])`.
abbrev pub is_rooted : Bytes → Bool
is_rooted [] = false
is_rooted (c ∷ path) = c == 47 || c == 46

-- `PathBuf::push` of a relative path.
unfoldable pub ends_in_slash : Bytes → Bool
ends_in_slash [] = false
ends_in_slash (c ∷ []) = c == 47
ends_in_slash (c ∷ d ∷ path) = ends_in_slash (d ∷ path)

abbrev pub push : Bytes → Bytes → Bytes
push dir path =
    if is_empty dir then path else if ends_in_slash dir then dir ++ path else dir ++ 47 ∷ path

unfoldable pub format_path : Bytes → Bytes → Bytes
unfolding ends_in_slash
format_path path cdir = if is_rooted path then path else push cdir path

-- The prefix that makes the path of the configuration have a parent.
abbrev pub with_parent : Bytes → Bytes
with_parent cfile = if is_rooted cfile then cfile else codes "./" ++ cfile

-- What reading a file gives: its text, that it is not there, or another error.
pub data Reading : Type 0 where
  contents : Bytes → Reading
  not_found : Reading
  unreadable : Reading

-- The loop over `CONFIG_FILES`.
unfoldable pub find_config : (Bytes → Reading) → List Bytes → Option (Bytes × Bytes)
find_config read [] = none
find_config read (cfile ∷ files) =
    let rest = find_config read files in
    elim (read cfile) [ contents v ↦ some (v, cfile) | not_found ↦ rest | unreadable ↦ none ]

abbrev pub config_files : List Bytes
config_files = codes "/etc/psrtd/config.yml" ∷ codes "/usr/local/etc/psrtd/config.yml" ∷ []

abbrev given_config : Reading → Bytes → Option (Bytes × Bytes)
given_config (contents v) cfile = some (v, cfile)
given_config not_found cfile = none
given_config unreadable cfile = none

-- The text of the configuration and the path that it was read from.
unfoldable pub read_config : (Bytes → Reading) → Option Bytes → Option (Bytes × Bytes)
unfolding find_config
read_config read (some cfile) = given_config (read cfile) cfile
read_config read none = find_config read config_files

-- The sockets, by what they are bound to.
pub record Listeners : Type 0 where
  pub tcp : List Bytes
  pub udp : List Bytes
  pub unix : List Bytes

-- The files removed, the permissions set, and `UNIX_SOCKETS`.
pub record Host : Type 0 where
  pub removed : List Bytes
  pub modes : List (Bytes × ℕ)
  pub unix_sockets : List Bytes

-- What the system answers.
pub record Os : Type 0 where
  pub bind_unix : Bytes → Result (Unit {0})
  pub bind_tcp : Bytes → Result (Unit {0})
  pub bind_udp : Bytes → Result (Unit {0})
  pub metadata : Bytes → Result (Unit {0})
  pub set_permissions : Bytes → ℕ → Result (Unit {0})

module _ (os : Os) (cdir : Bytes) where
  abbrev pub remove_file : Bytes → Exec Host (Unit {0})
  remove_file path = change (λ h. (tt {0}, record h { removed = h.removed ++ path ∷ [] }))

  -- A socket of the file system: a file that is in the way is removed.
  unfoldable pub listen_unix : Bytes → Exec Host (Unit {0})
  listen_unix path = do
    remove_file path
    lift (os.bind_unix path)
    lift (os.metadata path)
    lift (os.set_permissions path 0o770)
    change (λ h. (
      tt {0},
      record h { modes = h.modes ++ (path, 0o770) ∷ []; unix_sockets = path ∷ h.unix_sockets },
    ))

  -- The loop over `bind`.
  unfoldable pub listen_streams : List Bytes → Listeners → Exec Host Listeners
  unfolding listen_unix is_unix_socket format_path
  listen_streams [] l = pure l
  listen_streams (s_bind ∷ rest) l =
      let path = format_path s_bind cdir in
      if is_unix_socket s_bind
      then (do listen_unix path; listen_streams rest (record l { unix = l.unix ++ path ∷ [] }))
      else (do
        lift (os.bind_tcp s_bind)
        listen_streams rest (record l { tcp = l.tcp ++ s_bind ∷ [] }))

  -- The loop over `bind_udp`.
  unfoldable pub listen_udp : List Bytes → Listeners → Exec Host Listeners
  listen_udp [] l = pure l
  listen_udp (bind ∷ rest) l = do
    lift (os.bind_udp bind)
    listen_udp rest (record l { udp = l.udp ++ bind ∷ [] })

  unfoldable pub create : ConfigProto → Exec Host Listeners
  unfolding listen_streams listen_udp
  create proto = do
    l ← listen_streams (to_list proto.bind) (record { tcp = []; udp = []; unix = [] })
    listen_udp (to_list proto.bind_udp) l

-- `cleanup`: the files of the sockets are removed.
abbrev pub cleanup : Host → Host
cleanup h = record h { removed = h.removed ++ h.unix_sockets }
