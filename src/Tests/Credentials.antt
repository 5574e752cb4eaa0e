-- ===== src/Tests/Credentials.antt =====
-- A token and a key file with one good key.
use psrt.Prelude.{◌≡◌, ◌↔◌, true, refl, none, some, [], ◌∷◌}
use psrt.Prelude.Bytes.{Bytes, codes}
use psrt.Prelude.Assoc.{Assoc}
use psrt.Fault.{ok}
use psrt.Acl.{AclDb, new_full, has_acl}
use psrt.Keys.Reload.{key_of_token, reload_keys}
use psrt.Keys.{Key, verify}
use psrt.Keys.Passwords.{trim, lines, reload_passwords}
use psrt.Keys.LastLine.{LastNames, reload_passwords-verify}
use psrt.Tests.Packets.{plain_crypto}
use psrt.Token.{Hex}

-- Texts that are their own bytes.
abbrev plain_hex : Hex
plain_hex = record { encode = λ bytes. bytes; decode = λ text. ok text }

abbrev token : Bytes
token = codes "0123456789abcdef0123456789abcdef"

abbrev users : AclDb
users = record { acls = (codes "ann", new_full) ∷ [] }

-- The second key is too short, and the third user has no access list.
abbrev key_file : Assoc Bytes
key_file = (codes "ann", token) ∷ (codes "bob", codes "00") ∷ (codes "eve", token) ∷ []

abbrev loaded : Assoc Key
loaded = (codes "ann", key_of_token token) ∷ []

key_file_loads : (reload_keys plain_hex users (some (ok key_file)) none).1 ≡ some loaded
unfolding reload_keys has_acl
key_file_loads = refl

-- The second line of `ann` counts; the others are passed over.
abbrev password_file : Bytes
password_file = codes "\n#ann:x\nann:old\n ann : new \nbob\na:b:c\n"

password_file_loads :
    (reload_passwords (some (ok password_file)) none).1 ≡ some ((codes "ann", codes "new") ∷ [])
unfolding reload_passwords
password_file_loads = refl

reload_passwords-verify_example :
    (verify plain_crypto
        (reload_passwords (some (ok password_file)) none).1
        (codes "ann")
        (codes "new")
      ≡ true)
    ↔ ((hash : Bytes) × LastNames (codes "ann") hash (lines (trim password_file))
        × (plain_crypto.bcrypt_verify (codes "new") hash ≡ ok true))
reload_passwords-verify_example =
    reload_passwords-verify plain_crypto password_file none (codes "ann") (codes "new")
