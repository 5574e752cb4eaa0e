-- ===== src/Stats/Http.antt =====
-- src/server.rs: `stats::handler`, which serves the status over HTTP.
use psrt.Prelude.{ℕ, ◌+◌, Bool, false, ◌&&◌, Option, none, some, List, [], ◌∷◌, if◌then◌else◌, leb}
use Prim.Native.String.{String}
use psrt.Prelude.Bytes.{Bytes, codes, beq}
use psrt.Prelude.Split.{splitn2}
use psrt.Prelude.Utf8.{is_utf8}
use psrt.Fault.{Result, ok, err, Piece, text, shown, error_text}
use psrt.Acl.{get_acl, Acl}
use psrt.Keys.{Crypto, verify}
use psrt.Guards.{Guards, user_of}
use psrt.PubSub.Submap.{SubMap}
use psrt.Stats.Status.{ServerStatus, Observed, get_status}

pub data Method : Type 0 where
  get_method other_method : Method

-- The parts of a request that the handler looks at. The body is not read.
pub record Request : Type 0 where
  pub method : Method
  pub path : Bytes
  pub authorization : Option Bytes

-- The bodies: none, a text, the status as JSON, and the two files compiled in.
pub data Body (Cluster : Type 0) : Type 0 where
  nothing : Body Cluster
  content : List Piece → Body Cluster
  status_json : ServerStatus Cluster → Body Cluster
  js_chart_min html_stats : Body Cluster

pub record Response (Cluster : Type 0) : Type 0 where
  pub status : ℕ
  pub header : Option (String × String)
  pub body : Body Cluster

-- The crates `http` and `base64`, and the text of an `Utf8Error`.
pub record Web : Type 0 where
  pub to_str : Bytes → Option Bytes
  pub decode : Bytes → Result Bytes
  pub show_utf8_error : Bytes → Bytes

-- What the header says: it is refused, it carries a login and a password, or none.
pub data Credentials : Type 0 where
  refused : List Piece → Credentials
  given : Bytes → Bytes → Credentials
  absent : Credentials

abbrev pub status_ok : ℕ
status_ok = 200

abbrev pub status_bad_request : ℕ
status_bad_request = 400

abbrev pub status_unauthorized : ℕ
status_unauthorized = 401

abbrev pub status_not_found : ℕ
status_not_found = 404

abbrev pub status_method_not_allowed : ℕ
status_method_not_allowed = 405

-- `to_lowercase`. What lies outside ASCII has no `basic` as its lower case.
abbrev pub lower : ℕ → ℕ
lower c = if leb 65 c && leb c 90 then c + 32 else c

unfoldable pub to_lowercase : Bytes → Bytes
to_lowercase [] = []
to_lowercase (c ∷ s) = lower c ∷ to_lowercase s

-- `scheme.to_lowercase() == "basic"`.
unfoldable pub is_basic : Bytes → Bool
unfolding to_lowercase beq
is_basic scheme = beq (to_lowercase scheme) (codes "basic")

abbrev pub parts_given : Bytes × Option Bytes → Credentials
parts_given (username, none) =
    refused (text "Basic authorization error: password not specified" ∷ [])
parts_given (username, some password) = given username password

module _ (W : Web) where
  unfoldable pub decoded : Result Bytes → Credentials
  unfolding splitn2 is_utf8
  decoded (err e) = refused (text "Unable to decode credentials: " ∷ error_text e)
  decoded (ok v) =
      if is_utf8 v
      then parts_given (splitn2 58 v)
      else refused (text "Unable to parse credentials string: " ∷ shown (W.show_utf8_error v) ∷ [])

  unfoldable pub scheme_parts : Bytes × Option Bytes → Credentials
  unfolding decoded is_basic
  scheme_parts (scheme, none) = refused (text "Invalid authorization header" ∷ [])
  scheme_parts (scheme, some params) = if is_basic scheme then decoded (W.decode params) else absent

  abbrev header_text : Option Bytes → Credentials
  header_text none = refused (text "Unable to decode authorization header" ∷ [])
  header_text (some auth) = scheme_parts (splitn2 32 auth)

  unfoldable pub credentials : Option Bytes → Credentials
  unfolding scheme_parts splitn2
  credentials none = absent
  credentials (some authorization) = header_text (W.to_str authorization)

abbrev pub admin_acl : Option Acl → Bool
admin_acl none = false
admin_acl (some acl) = acl.admin

-- The test behind the credentials.
unfoldable pub authorized : Crypto → Guards → Credentials → Bool
unfolding verify get_acl
authorized C guards (refused why) = false
authorized C guards (given login password) =
    verify C guards.password_db login password && admin_acl (get_acl guards.acl_db (user_of login))
authorized C guards absent = admin_acl (get_acl guards.acl_db (codes "_"))

module _ {Cluster : Type 0} where
  abbrev pub plain : ℕ → Body Cluster → Response Cluster
  plain status body = record { status = status; header = none; body = body }

  abbrev pub file : String → Body Cluster → Response Cluster
  file content_type body = record {
    status = status_ok;
    header = some ("content-type", content_type);
    body = body;
  }

  abbrev pub unauthorized : Response Cluster
  unauthorized = record {
    status = status_unauthorized;
    header = some ("www-authenticate", "Basic realm=\"?\"");
    body = nothing;
  }

  -- The pages, for a request that is let in.
  unfoldable pub page : Bytes → ServerStatus Cluster → Response Cluster
  unfolding beq
  page path status =
      if beq path (codes "/status")
      then file "application/json" (status_json status)
      else if beq path (codes "/chart.min.js")
      then file "application/javascript; charset=utf-8" js_chart_min
      else if beq path (codes "/")
      then file "text/html; charset=utf-8" html_stats
      else plain status_not_found nothing

module _ {Map Cluster : Type 0} (S : SubMap Map) (W : Web) (C : Crypto) (guards : Guards) where
  -- `if !authorized`, and the pages behind it.
  unfoldable pub checked : Credentials → Bytes → Observed Map Cluster → Response Cluster
  unfolding authorized page get_status
  checked c path o = if authorized C guards c then page path (get_status S o) else unauthorized

  abbrev pub answer : Credentials → Bytes → Observed Map Cluster → Response Cluster
  answer (refused why) path o = plain status_bad_request (content why)
  answer (given login password) path o = checked (given login password) path o
  answer absent path o = checked absent path o

  unfoldable pub handler : Request → Observed Map Cluster → Response Cluster
  unfolding credentials checked
  handler req o = elim req.method [
    | get_method ↦ answer (credentials W req.authorization) req.path o
    | other_method ↦ plain status_method_not_allowed nothing
  ]
