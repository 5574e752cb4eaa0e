-- ===== src/Startup/Auth.antt =====
-- src/server.rs: `load_acl`, `load_auth`, and the handler of the hangup signal; with `set_path`,
-- `set_password_file` and `set_key_file` of the three databases.
use psrt.Prelude.{◌≡◌, refl, Option, none, some}
use psrt.Prelude.Bytes.{Bytes}
use psrt.Prelude.Assoc.{Assoc, lookup}
use psrt.Fault.{Result, ok, err}
use psrt.Acl.{Acl, reload_acls}
use psrt.Token.{Hex}
use psrt.Keys.{Key}
use psrt.Keys.Reload.{reload_keys, IsUsable, reload_keys-IsUsable}
use psrt.Keys.Passwords.{reload_passwords}
use psrt.Guards.{Guards}
use psrt.Startup.{ConfigAuth, format_path}

-- The three databases with the paths of their files.
pub record Databases : Type 0 where
  pub guards : Guards
  pub acl_path : Bytes
  pub password_file : Option Bytes
  pub key_file : Option Bytes

-- What reading and parsing the three kinds of files gives.
pub record Files : Type 0 where
  pub acls : Bytes → Result (Assoc Acl)
  pub passwords : Bytes → Result Bytes
  pub keys : Bytes → Result (Assoc Bytes)

abbrev read_if {ℓ} : {A : Type ℓ} → (Bytes → A) → Option Bytes → Option A
read_if read none = none
read_if read (some path) = some (read path)

-- The three calls of `reload`, each with the error that is only logged.
unfoldable pub reload_acl_db : Files → Databases → Result (Unit {0}) × Databases
unfolding reload_acls
reload_acl_db files d =
    let r = reload_acls (files.acls d.acl_path) d.guards.acl_db in
    (r.0, record d { guards = record d.guards { acl_db = r.1 } })

unfoldable pub reload_password_db : Files → Databases → Databases
unfolding reload_passwords
reload_password_db files d =
    let r = reload_passwords (read_if files.passwords d.password_file) d.guards.password_db in
    record d { guards = record d.guards { password_db = r.1 } }

module _ (H : Hex) where
  unfoldable pub reload_key_db : Files → Databases → Databases
  unfolding reload_keys
  reload_key_db files d =
      let r = reload_keys H d.guards.acl_db (read_if files.keys d.key_file) d.guards.key_db in
      record d { guards = record d.guards { key_db = r.1 } }

  -- `load_acl`; `none` is the panic where the lists cannot be loaded.
  unfoldable pub load_acl : Files → ConfigAuth → Bytes → Databases → Option Databases
  unfolding reload_acl_db format_path
  load_acl files auth cdir d =
      let r = reload_acl_db files (record d { acl_path = format_path auth.acl cdir }) in
      elim r.0 [ ok u ↦ some r.1 | err e ↦ none ]

  abbrev load_passwords : Files → Option Bytes → Bytes → Databases → Databases
  load_passwords files none cdir d = d
  load_passwords files (some f) cdir d =
      reload_password_db files (record d { password_file = some (format_path f cdir) })

  abbrev load_key_file : Files → Option Bytes → Bytes → Databases → Databases
  load_key_file files none cdir d = d
  load_key_file files (some f) cdir d =
      reload_key_db files (record d { key_file = some (format_path f cdir) })

  unfoldable pub load_auth : Files → ConfigAuth → Bytes → Databases → Databases
  unfolding reload_password_db reload_key_db format_path
  load_auth files auth cdir d =
      load_key_file files auth.key_file cdir (load_passwords files auth.password_file cdir d)

  -- The hangup signal: the access lists first, since the keys are checked against them.
  unfoldable pub hangup : Files → Databases → Databases
  unfolding reload_acl_db reload_password_db reload_key_db
  hangup files d = reload_key_db files (reload_password_db files (reload_acl_db files d).1)

module _ (H : Hex) where
  -- After a hangup with a key file that can be read, every key belongs to a user that has an access
  -- list among those that the hangup left, and has 16 bytes for AES-128, the first half of the 32
  -- bytes for AES-256.
  pub hangup-IsUsable :
      (files : Files) (d : Databases) (path : Bytes) (keys : Assoc Bytes) {m : Assoc Key}
      (login : Bytes) {key : Key}
      → d.key_file ≡ some path
      → files.keys path ≡ ok keys
      → (hangup H files d).guards.key_db ≡ some m
      → lookup login m ≡ some key
      → IsUsable H (hangup H files d).guards.acl_db login key
  unfolding hangup reload_key_db reload_password_db reload_acl_db
  hangup-IsUsable files d path keys {m} login {key} configured there loaded found =
      let lists = (reload_acls (files.acls d.acl_path) d.guards.acl_db).1 in
      let read : read_if files.keys d.key_file ≡ some (ok keys) = rw (configured, there) refl in
      let now : (reload_keys H lists (some (ok keys)) d.guards.key_db).1 ≡ some m =
        rw read at loaded in
      reload_keys-IsUsable H lists keys d.guards.key_db login now found
