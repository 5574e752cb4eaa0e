-- ===== src/Control/Publishing.antt =====
-- What `OP_PUBLISH` does with a frame: who may publish, and what reaches the subscribers.
use psrt.Prelude.{
  ℕ, suc, ◌+◌, ◌≡◌, ◌≢◌, ◌⊎◌, refl, sym, ap, ◌∙◌, true, false, [], ◌∷◌, ◌++◌, arith, take, drop,
  Option-cases, Bool-cases, inl, inr,
}
use psrt.Prelude.Bytes.{Bytes, has}
use mathlib.Core.Path.{subst}
use psrt.Prelude.Split.{position, position-split, truncate-split_off}
use psrt.Prelude.Utf8.{is_utf8}
use psrt.Fault.{Result, ok, Result-cases}
use psrt.Exec.{◌>>=◌}
use psrt.Topic.{prepare_topic, has_invalid_symbols}
use psrt.Acl.{allow_write}
use psrt.PubSub.Submap.{SubMap}
use psrt.Server.{Session, on_stream}
use psrt.Control.{
  Control, Verdict, publish_to, publish_topic, publish_prepared, publish_named, publish_at,
  publish_block,
}

module _ {Map : Type 0} (S : SubMap Map) (ctl : Control) (priority timestamp : ℕ) where
  -- The message went to the subscribers of a topic that the client may write to, and, with
  -- clusters, to replication.
  pub record Published (frame : Bytes) (s s' : Session Map) : Type 0 where
    pub sent : Bytes
    pub topic : Bytes
    pub message : Bytes
    pub framed : frame ≡ sent ++ 0 ∷ message
    pub text : (is_utf8 sent ≡ true) × (has 0 sent ≡ false) × (sent ≢ [])
    pub prepared : prepare_topic ctl.settings.max_topic_depth sent ≡ ok topic
    pub plain : has_invalid_symbols topic ≡ false
    pub allowed : allow_write ctl.acl topic ≡ true
    pub db : s'.db ≡ (publish_to S ctl priority timestamp topic message s).db
    pub replicated :
        s'.replicated ≡ (publish_to S ctl priority timestamp topic message s).replicated

  -- Nothing went out.
  pub record Untouched (s s' : Session Map) : Type 0 where
    pub db : s'.db ≡ s.db
    pub replicated : s'.replicated ≡ s.replicated

  abbrev Outcome : Bytes → Session Map → Result Verdict × Session Map → Type 0
  Outcome frame s r = Published frame s r.1 ⊎ Untouched s r.1

  publish_topic-cases :
      (sent topic message : Bytes) (s : Session Map)
      → (is_utf8 sent ≡ true) × (has 0 sent ≡ false) × (sent ≢ [])
      → prepare_topic ctl.settings.max_topic_depth sent ≡ ok topic
      → Outcome (sent ++ 0 ∷ message) s (publish_topic S ctl priority timestamp topic message s)
  unfolding publish_topic ◌>>=◌ on_stream
  publish_topic-cases sent topic message s text prepared =
      elim (Bool-cases (has_invalid_symbols topic)) [
        | inl bad ↦ inr (record { db = ground (arith, bad); replicated = ground (arith, bad) })
        | inr plain ↦ elim (Bool-cases (allow_write ctl.acl topic)) [
          | inr denied ↦ inr (record {
            db = ground (arith, plain, denied);
            replicated = ground (arith, plain, denied);
          })
          | inl allowed ↦ inl (record {
            sent = sent;
            topic = topic;
            message = message;
            framed = refl;
            text = text;
            prepared = prepared;
            plain = plain;
            allowed = allowed;
            db = ground (arith, plain, allowed);
            replicated = ground (arith, plain, allowed);
          })
        ]
      ]

  publish_named-cases :
      (sent message : Bytes) (s : Session Map)
      → has 0 sent ≡ false
      → Outcome (sent ++ 0 ∷ message) s (publish_named S ctl priority timestamp sent message s)
  unfolding publish_named publish_prepared ◌>>=◌ on_stream
  publish_named-cases [] message s h = inr (record { db = refl; replicated = refl })
  publish_named-cases (c ∷ sent) message s h = elim (Bool-cases (is_utf8 (c ∷ sent))) [
    | inr bad ↦ inr (record { db = ground (arith, bad); replicated = ground (arith, bad) })
    | inl valid ↦ elim (Result-cases (prepare_topic ctl.settings.max_topic_depth (c ∷ sent))) [
      | inl (topic, prepared) ↦
          rw (valid, prepared, publish_named)
            (publish_topic-cases (c ∷ sent) topic message s (valid, h, cc) prepared)
      | inr (e, deep) ↦
          inr
            (record { db = ground (arith, valid, deep); replicated = ground (arith, valid, deep) })
    ]
  ]

  -- Whatever bytes a client sends as a publish frame, and whether its response can be written or
  -- not: either the frame is a topic, a zero byte and a message, the prepared topic holds no `#` or
  -- `+` and the client's access list allows writing to it, and the message went to the topic's
  -- subscribers and to replication; or no queue and no replication call has changed.
  pub publish_block-cases :
      (frame : Bytes) (s : Session Map)
      → Published frame s (publish_block S ctl priority timestamp frame s).1
        ⊎ Untouched s (publish_block S ctl priority timestamp frame s).1
  unfolding publish_block publish_at ◌>>=◌
  publish_block-cases frame s = elim (Option-cases (position 0 frame)) [
    | inl e ↦ rw (e, publish_block) (inr (record { db = refl; replicated = refl }))
    | inr (npos, e) ↦
        let (whole, clean, fits) = position-split 0 frame e in
        let one : npos + 1 ≡ suc npos = omega arith in
        rw (e, publish_block)
          (rw (truncate-split_off npos frame fits) (
            subst
              (λ f. Outcome f s (
                publish_named S ctl priority timestamp (take npos frame) (drop (npos + 1) frame) s))
              (ap (λ k. take npos frame ++ 0 ∷ drop k frame) one ∙ sym whole)
              (publish_named-cases (take npos frame) (drop (npos + 1) frame) s clean)))
  ]
