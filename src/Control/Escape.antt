-- ===== src/Control/Escape.antt =====
-- Where the check of `OP_SUBSCRIBE` lets a client read more than its access list allows.
use psrt.Prelude.{
  ℕ, ◌≡◌, ◌≢◌, refl, true, false, some, List, [], ◌∷◌, ◌++◌, arith, Bool-cases, inl, inr, Exists,
  here, there,
}
use psrt.Prelude.Bytes.{Bytes, has}
use psrt.Prelude.Split.{split_on, split_on_whole, split_on-append, split_on-ne-nil}
use psrt.Wire.{response_ok}
use psrt.Fault.{ok}
use psrt.Topic.{slash, prepare_topic}
use psrt.Acl.Covers.{Covers, CoversPath, rest, level, same, matches_chunks_iff, matches_iff}
use psrt.Acl.{PathMaskList, Acl, hash, plus, matches_chunks, matches, allow_read}
use psrt.PubSub.Submap.{ServerClient, SubMap, SubMapLaws, holds_digest}
use psrt.PubSub.Db.{subscribe, get_subscribers}
use psrt.PubSub.Db.Access.{subscribe-get_subscribers}
use psrt.Server.{Session}
use psrt.Control.{Control, subscribe_topics}

-- An access list whose one mask for reading is `+`, every topic of one level.
abbrev pub OneLevel : Acl → Type 0
OneLevel acl = acl.read ≡ some (record { path_masks = record { chunks = some (plus ∷ []) } ∷ [] })

-- The mask `+` lets the topic `#` pass, as one level.
allow_read-hash : (acl : Acl) → OneLevel acl → allow_read acl hash ≡ true
unfolding allow_read
allow_read-hash acl h = rw h refl

unfold_read :
    (acl : Acl) (path : Bytes)
    → OneLevel acl
    → allow_read acl path ≡ true
    → matches (record { path_masks = record { chunks = some (plus ∷ []) } ∷ [] }) path ≡ true
unfolding allow_read
unfold_read acl path h e = ground (arith, h, e)

not-Covers_deep : (a : Bytes) (ps : List Bytes) → ps ≢ [] → ¬ Covers (plus ∷ []) (a ∷ ps)
not-Covers_deep a [] n c = n refl
not-Covers_deep a (p ∷ ps) n (rest e) = ground (arith, e)
not-Covers_deep a (p ∷ ps) n (level e c) = elim c [ ]
not-Covers_deep a (p ∷ ps) n (same e c) = elim c [ ]

only_mask :
    (path : Bytes)
    → Exists (λ mask. CoversPath mask path) (record { chunks = some (plus ∷ []) } ∷ [])
    → Covers (plus ∷ []) (split_on slash path)
only_mask path (here c) = c
only_mask path (there c) = elim c [ ]

-- The mask `+` keeps every topic of two levels or more out.
allow_read_deep :
    (acl : Acl) (a b : Bytes)
    → OneLevel acl
    → has slash a ≡ false
    → allow_read acl (a ++ slash ∷ b) ≡ false
allow_read_deep acl a b h clean = elim (Bool-cases (allow_read acl (a ++ slash ∷ b))) [
  | inr e ↦ e
  | inl e ↦
      let list : PathMaskList = record { path_masks = record { chunks = some (plus ∷ []) } ∷ [] } in
      let passed : matches list (a ++ slash ∷ b) ≡ true = unfold_read acl (a ++ slash ∷ b) h e in
      absurd (
        not-Covers_deep a (split_on slash b) (split_on-ne-nil slash b) (
          rw split_on-append at
            (only_mask (a ++ slash ∷ b) ((matches_iff list (a ++ slash ∷ b)).0 passed))))
]

prepare_topic-hash : (max_depth : ℕ) → prepare_topic max_depth hash ≡ ok hash
unfolding prepare_topic
prepare_topic-hash max_depth = ground arith

hash_matches_deep :
    (a b : Bytes)
    → has slash a ≡ false
    → matches_chunks (split_on slash (a ++ slash ∷ b)) (split_on slash hash) ≡ true
hash_matches_deep a b clean =
    rw (split_on-append slash a b clean, split_on_whole slash hash (unfold has in refl))
      ((matches_chunks_iff (a ∷ split_on slash b) (hash ∷ [])).1 (rest refl))

module _ {Map : Type 0} (S : SubMap Map) (L : SubMapLaws S) (ctl : Control) where
  -- A client whose access list lets it read only topics of one level (the mask `+`) may subscribe
  -- to `#`: `OP_SUBSCRIBE` answers `RESPONSE_OK`, and from then on the client is among the
  -- subscribers of every topic of two levels or more, none of which its access list lets it read.
  pub subscribe_hash_escapes :
      (s : Session Map) {c : ServerClient} (a b : Bytes)
      → OneLevel ctl.acl
      → L.client_of s.db.submap ctl.client.digest ≡ some c
      → has slash a ≡ false
      → ((subscribe_topics S ctl (hash ∷ []) s).0 ≡ response_ok)
        × (holds_digest ctl.client.digest
              (get_subscribers S (a ++ slash ∷ b) (subscribe_topics S ctl (hash ∷ []) s).1.db)
            ≡ true)
        × (allow_read ctl.acl (a ++ slash ∷ b) ≡ false)
  unfolding subscribe_topics
  subscribe_hash_escapes s {c} a b narrow known clean =
      let depth = ctl.settings.max_topic_depth in
      let allowed = allow_read-hash ctl.acl narrow in
      let made : (subscribe S depth hash ctl.client s.db).0 ≡ ok tt =
        unfold subscribe in ground (arith, prepare_topic-hash depth) in
      let reached =
        (subscribe-get_subscribers S L depth hash ctl.client c s.db (prepare_topic-hash depth) known
            (a ++ slash ∷ b) ctl.client.digest).1
          (inr (refl, hash_matches_deep a b clean)) in
      (
        ground (arith, allowed, made),
        ground (arith, allowed, made, reached),
        allow_read_deep ctl.acl a b narrow clean,
      )
