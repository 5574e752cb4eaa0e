-- ===== src/Control/Subscribing.antt =====
-- What `OP_SUBSCRIBE` answers.
use psrt.Prelude.{◌≡◌, ◌↔◌, refl, true, List, [], ◌∷◌, arith, Bool-cases, inl, inr, All}
use psrt.Prelude.Bytes.{Bytes}
use psrt.Wire.{response_ok}
use psrt.Fault.{ok, Result-cases}
use psrt.Topic.{prepare_topic}
use psrt.Acl.{allow_read}
use psrt.PubSub.Submap.{SubMap}
use psrt.PubSub.Db.{ClientDb, subscribe}
use psrt.Server.{Session}
use psrt.Control.{Control, subscribed, subscribe_topics}

-- A topic that the access list lets the client read and that is not too deep.
abbrev pub Accepts : Control → Bytes → Type 0
Accepts ctl topic =
    (allow_read ctl.acl topic ≡ true)
    × ((t : Bytes) × (prepare_topic ctl.settings.max_topic_depth topic ≡ ok t))

module _ {Map : Type 0} (S : SubMap Map) (ctl : Control) where
  subscribe-ok :
      (topic t : Bytes) (db : ClientDb Map)
      → prepare_topic ctl.settings.max_topic_depth topic ≡ ok t
      → (subscribe S ctl.settings.max_topic_depth topic ctl.client db).0 ≡ ok tt
  unfolding subscribe
  subscribe-ok topic t db h = ground (arith, h)

  subscribe-ok_inv :
      (topic : Bytes) (db : ClientDb Map)
      → (subscribe S ctl.settings.max_topic_depth topic ctl.client db).0 ≡ ok tt
      → (t : Bytes) × (prepare_topic ctl.settings.max_topic_depth topic ≡ ok t)
  unfolding subscribe
  subscribe-ok_inv topic db h =
      elim (Result-cases (prepare_topic ctl.settings.max_topic_depth topic)) [
        | inl p ↦ p
        | inr (e, bad) ↦ absurd (ground (arith, bad))
      ]

  subscribe_topics_sound :
      (topics : List Bytes) (s : Session Map)
      → (subscribe_topics S ctl topics s).0 ≡ response_ok
      → All (Accepts ctl) topics
  unfolding subscribe_topics
  subscribe_topics_sound [] s h = tt
  subscribe_topics_sound (topic ∷ topics) s h = elim (Bool-cases (allow_read ctl.acl topic)) [
    | inr denied ↦ absurd (ground (arith, denied))
    | inl allowed ↦
        elim (Result-cases (subscribe S ctl.settings.max_topic_depth topic ctl.client s.db).0) [
          | inr (e, bad) ↦ absurd (ground (arith, allowed, bad))
          | inl (u, good) ↦ (
            (allowed, subscribe-ok_inv topic s.db (ground (arith, good))),
            subscribe_topics_sound topics (subscribed S ctl topic s)
                (ground (arith, allowed, good)),
          )
        ]
  ]

  subscribe_topics_complete :
      (topics : List Bytes) (s : Session Map)
      → All (Accepts ctl) topics
      → (subscribe_topics S ctl topics s).0 ≡ response_ok
  unfolding subscribe_topics
  subscribe_topics_complete [] s h = refl
  subscribe_topics_complete (topic ∷ topics) s ((allowed, (t, prepared)), later) = ground (
    arith,
    allowed,
    subscribe-ok topic t s.db prepared,
    subscribe_topics_complete topics (subscribed S ctl topic s) later,
  )

  -- `OP_SUBSCRIBE` answers `RESPONSE_OK` exactly if the access list lets the client read each topic
  -- of the request, as it was sent, and none of them is too deep.
  pub subscribe_topics_iff :
      (topics : List Bytes) (s : Session Map)
      → ((subscribe_topics S ctl topics s).0 ≡ response_ok) ↔ All (Accepts ctl) topics
  subscribe_topics_iff topics s =
      (subscribe_topics_sound topics s, subscribe_topics_complete topics s)
