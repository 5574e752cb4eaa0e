-- ===== src/Tests/Starts.antt =====
-- The start of a server: its listeners, its configuration file and a hangup.
use psrt.Prelude.{◌≡◌, refl, Bool, true, false, none, some, [], ◌∷◌}
use psrt.Prelude.Bytes.{Bytes, codes, beq}
use psrt.Prelude.Assoc.{lookup}
use psrt.Fault.{ok, err, error_io, text}
use psrt.Exec.{◌>>=◌}
use psrt.Acl.{new_full, has_acl}
use psrt.Token.{Hex}
use psrt.Keys.Reload.{IsUsable, key_of_token}
use psrt.Startup.{
  single, multiple, ConfigProto, Reading, contents, not_found, read_config, Listeners, Host, Os,
  create,
}
use psrt.Startup.Files.{pem, load_identity}
use psrt.Prelude.{if◌then◌else◌}
use psrt.Startup.Auth.{Databases, Files, hangup, hangup-IsUsable}

abbrev os : Os
os = record {
  bind_unix = λ p. ok tt;
  bind_tcp = λ p. ok tt;
  bind_udp = λ p. ok tt;
  metadata = λ p. ok tt;
  set_permissions = λ p mode. ok tt;
}

abbrev proto : ConfigProto
proto = record {
  bind = multiple (codes "0.0.0.0:2873" ∷ codes "run/psrt.sock" ∷ codes "/tmp/p.socket" ∷ []);
  bind_udp = single (codes "0.0.0.0:2873");
  udp_frame_size = none;
  timeout = none;
  tls_pkcs12 = none;
  tls_cert = none;
  tls_key = none;
  fips = false;
  allow_no_tls = true;
}

abbrev host : Host
host = record { removed = []; modes = []; unix_sockets = [] }

abbrev listening : Listeners
listening = record {
  tcp = codes "0.0.0.0:2873" ∷ [];
  udp = codes "0.0.0.0:2873" ∷ [];
  unix = codes "/etc/psrtd/run/psrt.sock" ∷ codes "/tmp/p.socket" ∷ [];
}

created : (create os (codes "/etc/psrtd") proto host).0 ≡ ok listening
unfolding create ◌>>=◌
created = refl

-- The second place is looked at only if there is nothing at the first.
abbrev disk : Bytes → Reading
disk path = if_config (beq path (codes "/usr/local/etc/psrtd/config.yml"))
  where
    if_config : Bool → Reading
    if_config true = contents (codes "yml")
    if_config false = not_found

second_place : read_config disk none ≡ some (codes "yml", codes "/usr/local/etc/psrtd/config.yml")
unfolding read_config beq
second_place = refl

abbrev plain_hex : Hex
plain_hex = record { encode = λ bytes. bytes; decode = λ text. ok text }

abbrev token : Bytes
token = codes "0123456789abcdef0123456789abcdef"

-- `ann` has lost her access list when the signal comes.
abbrev databases : Databases
databases = record {
  guards = record {
    acl_db = record { acls = (codes "ann", new_full) ∷ [] };
    password_db = none;
    key_db = some ((codes "ann", key_of_token token) ∷ []);
  };
  acl_path = codes "acl";
  password_file = none;
  key_file = some (codes "keys");
}

abbrev files : Files
files = record {
  acls = λ path. ok ((codes "bob", new_full) ∷ []);
  passwords = λ path. err (error_io (text "No such file" ∷ []));
  keys = λ path. ok ((codes "ann", token) ∷ (codes "bob", token) ∷ []);
}

only_bob :
    (hangup plain_hex files databases).guards.key_db ≡ some ((codes "bob", key_of_token token) ∷ [])
unfolding hangup has_acl
only_bob = refl

hangup-IsUsable_example :
    IsUsable plain_hex
      (hangup plain_hex files databases).guards.acl_db
      (codes "bob")
      (key_of_token token)
unfolding lookup
hangup-IsUsable_example =
    hangup-IsUsable plain_hex files databases (codes "keys")
      ((codes "ann", token) ∷ (codes "bob", token) ∷ []) (codes "bob") refl refl only_bob refl

-- A certificate whose key is not there stops the server.
key_is_missing :
    load_identity
      (λ path. if beq path (codes "/tls/cert") then contents [] else not_found)
      (some (some (pem (codes "/tls/cert") (codes "/tls/key"))))
    ≡ none
unfolding beq
key_is_missing = refl
