-- ===== src/Acl.antt =====
-- src/acl.rs: path masks, mask lists, access lists and the database of them.
pub mod Covers
pub mod Parse
pub mod Lists
pub mod Yaml
use psrt.Prelude.{
  ℕ, Bool, true, false, not, ◌&&◌, Option, none, some, List, [], ◌∷◌, ◌||◌, if◌then◌else◌, any,
}
use psrt.Prelude.Bytes.{Bytes, codes, beq}
use psrt.Prelude.Split.{split_on, join}
use psrt.Prelude.Assoc.{Assoc, lookup}
use psrt.Fault.{Result, ok, err, ◌>>=◌, error_invalid_data, text}
use psrt.Topic.{slash}

-- `none` is the mask `#`, which matches every path.
pub record PathMask : Type 0 where
  pub chunks : Option (List Bytes)

abbrev pub new_any : PathMask
new_any = record { chunks = none }

abbrev pub hash : Bytes
hash = b'#' ∷ []

abbrev pub plus : Bytes
plus = b'+' ∷ []

pub is_str_any : Bytes → Bool
unfolding beq
is_str_any s = beq s hash

pub is_str_wildcard : Bytes → Bool
unfolding beq
is_str_wildcard s = beq s plus

-- The loop of `PathMask::matches_split`, over the parts of the path and the chunks of the mask.
unfoldable pub matches_chunks : List Bytes → List Bytes → Bool
unfolding is_str_any is_str_wildcard
matches_chunks [] [] = true
matches_chunks [] (m_chunk ∷ s_m) = false
matches_chunks (i_chunk ∷ path_split) [] = false
matches_chunks (i_chunk ∷ path_split) (m_chunk ∷ s_m) =
    let rest = matches_chunks path_split s_m in
    if is_str_any m_chunk
    then true
    else if not (is_str_wildcard m_chunk) && not (beq i_chunk m_chunk)
    then false
    else rest

unfoldable pub matches_split : PathMask → List Bytes → Bool
unfolding matches_chunks
matches_split mask path_split = elim mask.chunks [
  | none ↦ true
  | some chunks ↦ matches_chunks path_split chunks
]

-- `impl PartialEq for PathMask`.
chunks_eq : List Bytes → List Bytes → Bool
unfolding beq
chunks_eq [] [] = true
chunks_eq [] (c ∷ cs) = false
chunks_eq (c ∷ cs) [] = false
chunks_eq (c ∷ cs) (d ∷ ds) = beq c d && chunks_eq cs ds

options_eq : Option (List Bytes) → Option (List Bytes) → Bool
unfolding chunks_eq
options_eq none none = true
options_eq none (some ds) = false
options_eq (some cs) none = false
options_eq (some cs) (some ds) = chunks_eq cs ds

unfoldable pub mask_eq : PathMask → PathMask → Bool
unfolding options_eq
mask_eq m n = options_eq m.chunks n.chunks

-- The loop of `from_str`: a chunk `#` ends the mask.
unfoldable pub cut_after_any : List Bytes → List Bytes
unfolding is_str_any
cut_after_any [] = []
cut_after_any (chunk ∷ chunks) =
    let rest = cut_after_any chunks in if is_str_any chunk then hash ∷ [] else chunk ∷ rest

-- `impl FromStr for PathMask`.
unfoldable pub parse_mask : Bytes → Result PathMask
unfolding is_str_any cut_after_any split_on
parse_mask [] = err (error_invalid_data (text "Empty path mask" ∷ []))
parse_mask (c ∷ s) =
    if is_str_any (c ∷ s)
    then ok new_any
    else ok (record { chunks = some (cut_after_any (split_on slash (c ∷ s))) })

-- `impl Display for PathMask`.
unfoldable pub show_mask : PathMask → Bytes
unfolding join
show_mask mask = elim mask.chunks [ none ↦ hash | some chunks ↦ join slash chunks ]

-- The set of masks, in the order of its iteration.
pub record PathMaskList : Type 0 where
  pub path_masks : List PathMask

-- `HashSet::insert`: an equal mask is kept once.
unfoldable pub insert_mask : PathMask → List PathMask → List PathMask
unfolding mask_eq
insert_mask mask masks = if any (mask_eq mask) masks then masks else mask ∷ masks

-- `PathMaskList::matches`, with `matches_split` of the list: the path is split once for each mask.
unfoldable pub matches : PathMaskList → Bytes → Bool
unfolding matches_split split_on
matches l path = any (λ mask. matches_split mask (split_on slash path)) l.path_masks

parse_into : List Bytes → List PathMask → Result (List PathMask)
unfolding parse_mask insert_mask
parse_into [] masks = ok masks
parse_into (s ∷ s_masks) masks = do mask ← parse_mask s; parse_into s_masks (insert_mask mask masks)

-- `from_str_list` and `from_string_vec`.
unfoldable pub from_str_list : List Bytes → Result PathMaskList
unfolding parse_into
from_str_list s_masks = do masks ← parse_into s_masks []; ok (record { path_masks = masks })

pub record Acl : Type 0 where
  pub admin : Bool
  pub replicator : Bool
  pub read : Option PathMaskList
  pub write : Option PathMaskList

abbrev pub new_full : Acl
new_full = record {
  admin = true;
  replicator = true;
  read = some (record { path_masks = new_any ∷ [] });
  write = some (record { path_masks = new_any ∷ [] });
}

-- `is_some_and(|v| v.matches(topic))`.
abbrev pub allowed_by : Option PathMaskList → Bytes → Bool
allowed_by none topic = false
allowed_by (some l) topic = matches l topic

unfoldable pub allow_read : Acl → Bytes → Bool
unfolding matches
allow_read acl topic = allowed_by acl.read topic

unfoldable pub allow_write : Acl → Bytes → Bool
unfolding matches
allow_write acl topic = allowed_by acl.write topic

-- `Db`: the access lists by user. The file is read and deserialized outside the model.
pub record AclDb : Type 0 where
  pub acls : Assoc Acl

-- `Db::get_acl` and `Db::has_acl`.
unfoldable pub get_acl : AclDb → Bytes → Option Acl
unfolding lookup
get_acl db user = lookup user db.acls

unfoldable pub has_acl : AclDb → Bytes → Bool
unfolding get_acl
has_acl db user = elim (get_acl db user) [ none ↦ false | some acl ↦ true ]

-- `Db::reload`, where `parsed` is what reading and deserializing the file gives. An error leaves
-- the lists as they were.
unfoldable pub reload_acls : Result (Assoc Acl) → AclDb → Result (Unit {0}) × AclDb
reload_acls (err e) db = (err e, db)
reload_acls (ok acls) db = (ok tt, record { acls = acls })
