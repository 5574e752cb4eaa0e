-- ===== src/Startup/Files.antt =====
-- src/server.rs: the files that the server reads when it starts, and those that it removes when it
-- ends.
use psrt.Prelude.{ℕ, Bool, true, false, Option, none, some, List, [], ◌∷◌, ◌++◌, if◌then◌else◌}
use psrt.Prelude.Bytes.{Bytes}
use psrt.Client.Config as Client
use psrt.Client.Config.{is_unix_socket, set_queue_size, set_timeout, update_tls_ca, seconds}
use psrt.Prelude.{ℕ, ◌&&◌}
use psrt.Startup.{
  ConfigProto, Config, Reading, contents, not_found, unreadable, format_path, Host, cleanup,
}

-- The loop of `prepare_replication_configs`; a certificate that cannot be read is a panic.
abbrev pub with_ca : (Bytes → Reading) → Bytes → Client.Config → Option Client.Config
with_ca read cdir c = elim c.tls_ca [
  | none ↦ some c
  | some tls_ca ↦ elim (read (format_path tls_ca cdir)) [
    | contents v ↦ some (update_tls_ca v c)
    | not_found ↦ none
    | unreadable ↦ none
  ]
]

unfoldable pub replication_configs :
    (Bytes → Reading) → Bytes → ℕ → ℕ → List Client.Config → Option (List Client.Config)
unfolding format_path
replication_configs read cdir timeout queue_size [] = some []
replication_configs read cdir timeout queue_size (c ∷ cfgs) =
    let rest = replication_configs read cdir timeout queue_size cfgs in
    elim (with_ca read cdir c) [
      | none ↦ none
      | some with_tls ↦ elim rest [
        | none ↦ none
        | some configs ↦ some (set_timeout timeout (set_queue_size queue_size with_tls) ∷ configs)
      ]
    ]

-- The files of the TLS identity: one PKCS12 file, or a certificate and its key.
pub data IdentityFiles : Type 0 where
  pkcs12 : Bytes → IdentityFiles
  pem : Bytes → Bytes → IdentityFiles

abbrev cert_and_key : Option Bytes → Option Bytes → Bytes → Option (Option IdentityFiles)
cert_and_key none key cdir = some none
cert_and_key (some cert) none cdir = none
cert_and_key (some cert) (some key) cdir =
    some (some (pem (format_path cert cdir) (format_path key cdir)))

-- Which files `prepare_tls_identity` reads; a certificate without a key is a panic.
unfoldable pub tls_identity_files : ConfigProto → Bytes → Option (Option IdentityFiles)
unfolding format_path
tls_identity_files proto cdir = elim proto.tls_pkcs12 [
  | some p12 ↦ some (some (pkcs12 (format_path p12 cdir)))
  | none ↦ cert_and_key proto.tls_cert proto.tls_key cdir
]

-- `terminate`: the PID file and the sockets are removed.
abbrev pub terminate : Option Bytes → Host → Host
terminate none h = cleanup h
terminate (some pid_file) h = cleanup (record h { removed = h.removed ++ pid_file ∷ [] })

abbrev text_of : Reading → Option Bytes
text_of (contents v) = some v
text_of not_found = none
text_of unreadable = none

abbrev is_there : Reading → Bool
is_there (contents v) = true
is_there not_found = false
is_there unreadable = false

abbrev can_load : (Bytes → Reading) → IdentityFiles → Bool
can_load read (pkcs12 path) = is_there (read path)
can_load read (pem cert key) = is_there (read cert) && is_there (read key)

abbrev if_loaded : (Bytes → Reading) → Option IdentityFiles → Option (Option IdentityFiles)
if_loaded read none = some none
if_loaded read (some files) = if can_load read files then some (some files) else none

abbrev pub load_identity :
    (Bytes → Reading) → Option (Option IdentityFiles) → Option (Option IdentityFiles)
load_identity read none = none
load_identity read (some files) = if_loaded read files

-- `load_license`; a file that cannot be read is a panic.
abbrev required : Option Bytes → Option (Option Bytes)
required none = none
required (some v) = some (some v)

abbrev pub load_license : (Bytes → Reading) → Option Bytes → Bytes → Option (Option Bytes)
load_license read none cdir = some none
load_license read (some f) cdir = required (text_of (read (format_path f cdir)))

-- What serde_yaml2 makes of the text of the cluster's configuration is an argument.
module _ (read : Bytes → Reading) (parse : Bytes → Option (List Client.Config)) (cdir : Bytes) where
  abbrev parsed : Option Bytes → Option (List Client.Config)
  parsed none = none
  parsed (some text) = parse text

  abbrev prepared : ℕ → ℕ → Option (List Client.Config) → Option (Option (List Client.Config))
  prepared timeout queue_size none = none
  prepared timeout queue_size (some cfgs) =
      elim (replication_configs read cdir timeout queue_size cfgs) [
        | none ↦ none
        | some configs ↦ some (some configs)
      ]

  -- `prepare_replication_configs`.
  unfoldable pub prepare_replication_configs :
      Option Bytes → ℕ → ℕ → Option (Option (List Client.Config))
  unfolding replication_configs format_path
  prepare_replication_configs none timeout queue_size = some none
  prepare_replication_configs (some config) timeout queue_size =
      prepared timeout queue_size (parsed (text_of (read (format_path config cdir))))

-- The identity is the files that it is read from; native_tls and openssl parse them.
pub record AdditinalConfigs : Type 0 where
  pub tls_identity : Option IdentityFiles
  pub replication_configs : Option (List Client.Config)
  pub license : Option Bytes

abbrev together :
    Option (Option IdentityFiles)
    → Option (Option (List Client.Config))
    → Option (Option Bytes)
    → Option AdditinalConfigs
together none r l = none
together (some i) none l = none
together (some i) (some r) none = none
together (some i) (some r) (some l) =
    some (record { tls_identity = i; replication_configs = r; license = l })

-- `AdditinalConfigs::load`; `none` is a panic.
unfoldable pub load :
    (Bytes → Reading)
    → (Bytes → Option (List Client.Config))
    → Config
    → Bytes
    → ℕ
    → Option AdditinalConfigs
unfolding tls_identity_files prepare_replication_configs format_path
load read parse config cdir timeout =
    together (load_identity read (tls_identity_files config.proto cdir))
      (prepare_replication_configs read parse cdir config.cluster timeout config.server.data_queue)
      (load_license read config.server.license cdir)
