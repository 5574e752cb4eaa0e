-- ===== src/Guards.antt =====
-- src/server.rs: what stands behind `ACL_DB`, `PASSWORD_DB` and `KEY_DB`, and the names of a login.
use psrt.Prelude.{[], ◌∷◌}
use psrt.Prelude.Bytes.{Bytes, codes}
use psrt.Acl.{AclDb}
use psrt.Keys.{Keys, Passwords}

-- What decides about a login: the access lists, the passwords, the keys.
pub record Guards : Type 0 where
  pub acl_db : AclDb
  pub password_db : Passwords
  pub key_db : Keys

-- `get_acl`: the user of an empty login is `_`.
abbrev pub user_of : Bytes → Bytes
user_of [] = 95 ∷ []
user_of (c ∷ login) = c ∷ login

-- `format_login!`.
abbrev pub format_login : Bytes → Bytes
format_login [] = codes "anonymous"
format_login (c ∷ login) = c ∷ login
