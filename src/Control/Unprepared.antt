-- ===== src/Control/Unprepared.antt =====
-- Where `OP_SUBSCRIBE` lets a client read more than its access list allows, since it asks the access
-- list about the topic as it was sent.
use psrt.Prelude.{ℕ, ◌≡◌, refl, true, false, some, [], ◌∷◌, arith, inr}
use psrt.Prelude.Bytes.{Bytes, has, beq_refl}
use psrt.Prelude.Split.{split_on, split_on_whole}
use psrt.Wire.{response_ok}
use psrt.Fault.{ok}
use psrt.Topic.{slash, prepare_topic, contains_double, collapse, strip_slash, count_slashes}
use psrt.Acl.{Acl, plus, matches_chunks, allow_read}
use psrt.PubSub.Submap.{ServerClient, SubMap, SubMapLaws, holds_digest}
use psrt.PubSub.Db.{subscribe, get_subscribers}
use psrt.PubSub.Db.Access.{subscribe-get_subscribers}
use psrt.Server.{Session}
use psrt.Control.{Control, subscribe_topics}

-- An access list whose one mask for reading is `+/+`, every topic of two levels.
abbrev pub TwoLevels : Acl → Type 0
TwoLevels acl =
    acl.read ≡ some (record { path_masks = record { chunks = some (plus ∷ plus ∷ []) } ∷ [] })

allow_read-slashed :
    (acl : Acl) (a : Bytes)
    → TwoLevels acl
    → has slash a ≡ false
    → allow_read acl (slash ∷ a) ≡ true
unfolding allow_read split_on
allow_read-slashed acl a h clean = ground (arith, h, split_on_whole slash a clean)

allow_read_bare :
    (acl : Acl) (a : Bytes) → TwoLevels acl → has slash a ≡ false → allow_read acl a ≡ false
unfolding allow_read
allow_read_bare acl a h clean = ground (arith, h, split_on_whole slash a clean)

no_double : (a : Bytes) → has slash a ≡ false → contains_double a ≡ false
unfolding contains_double has
no_double [] h = refl
no_double (x ∷ []) h = refl
no_double (x ∷ y ∷ r) h = ground (arith, h, no_double (y ∷ r) (ground (arith, h)))

slashed_single : (a : Bytes) → has slash a ≡ false → contains_double (slash ∷ a) ≡ false
unfolding contains_double has
slashed_single [] h = refl
slashed_single (x ∷ r) h = ground (arith, h, no_double (x ∷ r) h)

no_slashes : (a : Bytes) → has slash a ≡ false → count_slashes a ≡ 0
unfolding count_slashes has
no_slashes [] h = refl
no_slashes (x ∷ r) h = ground (arith, h, no_slashes r (ground (arith, h)))

prepare_topic-slashed :
    (max_depth : ℕ) (a : Bytes) → has slash a ≡ false → prepare_topic max_depth (slash ∷ a) ≡ ok a
unfolding prepare_topic collapse strip_slash
prepare_topic-slashed max_depth a h = ground (arith, slashed_single a h, no_slashes a h)

matches_itself :
    (a : Bytes) → has slash a ≡ false → matches_chunks (split_on slash a) (split_on slash a) ≡ true
unfolding matches_chunks
matches_itself a h = rw (split_on_whole slash a h) (ground (arith, beq_refl a))

module _ {Map : Type 0} (S : SubMap Map) (L : SubMapLaws S) (ctl : Control) where
  -- A client whose access list lets it read only topics of two levels (the mask `+/+`) may subscribe
  -- to a topic of one level by a slash in front of it: `OP_SUBSCRIBE` answers `RESPONSE_OK`, and from
  -- then on the client is among the subscribers of the topic without the slash, which its access list
  -- does not let it read.
  pub subscribe_slash_escapes :
      (s : Session Map) {c : ServerClient} (a : Bytes)
      → TwoLevels ctl.acl
      → L.client_of s.db.submap ctl.client.digest ≡ some c
      → has slash a ≡ false
      → ((subscribe_topics S ctl ((slash ∷ a) ∷ []) s).0 ≡ response_ok)
        × (holds_digest ctl.client.digest
              (get_subscribers S a (subscribe_topics S ctl ((slash ∷ a) ∷ []) s).1.db)
            ≡ true)
        × (allow_read ctl.acl a ≡ false)
  unfolding subscribe_topics
  subscribe_slash_escapes s {c} a narrow known clean =
      let depth = ctl.settings.max_topic_depth in
      let allowed = allow_read-slashed ctl.acl a narrow clean in
      let prepared = prepare_topic-slashed depth a clean in
      let made : (subscribe S depth (slash ∷ a) ctl.client s.db).0 ≡ ok tt =
        unfold subscribe in ground (arith, prepared) in
      let reached =
        (subscribe-get_subscribers S L depth (slash ∷ a) ctl.client c s.db prepared known a
            ctl.client.digest).1
          (inr (refl, matches_itself a clean)) in
      (
        ground (arith, allowed, made),
        ground (arith, allowed, made, reached),
        allow_read_bare ctl.acl a narrow clean,
      )
