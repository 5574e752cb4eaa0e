-- ===== src/Control/Keeping.antt =====
-- No command of a control connection breaks the client database.
use psrt.Prelude.{ℕ, ◌≡◌, some, arith}
use psrt.Fault.{Result}
use psrt.Push.Queues.{QueuesFit, push_to_subscribers-QueuesFit, push_to_subscribers-WellFormed}
use psrt.PubSub.Submap.{SubMap, SubMapLaws}
use psrt.PubSub.Db.{ClientDb, subscribe, unsubscribe}
use psrt.PubSub.Db.Invariant.{WellFormed, subscribe-WellFormed, unsubscribe-WellFormed}
use psrt.Server.{Session}
use psrt.Control.{Control, process_control}
use psrt.Control.Kept.{KeptBy, process_control-OnDb}

module _ {Map : Type 0} (S : SubMap Map) (L : SubMapLaws S) where
  -- A well-formed database whose queues are within their capacities.
  abbrev pub IsSound : ClientDb Map → Type 0
  IsSound db = WellFormed S L db × QueuesFit db

module _ {Map : Type 0} (S : SubMap Map) (L : SubMapLaws S) (ctl : Control) where
  pub IsSound-KeptBy : KeptBy S ctl (IsSound S L)
  unfolding subscribe unsubscribe
  IsSound-KeptBy = record {
    subscribing = λ topic db h. (
      subscribe-WellFormed S L ctl.settings.max_topic_depth topic ctl.client h.0,
      λ ch. ground (arith, h.1 ch),
    );
    unsubscribing = λ topic db h. (
      unsubscribe-WellFormed S L ctl.settings.max_topic_depth topic ctl.client h.0,
      λ ch. ground (arith, h.1 ch),
    );
    pushing = λ subscribers priority topic message timestamp db h. (
      push_to_subscribers-WellFormed S L subscribers priority topic message timestamp h.0,
      push_to_subscribers-QueuesFit subscribers priority topic message timestamp db h.1,
    );
  }

  -- Whatever commands a client sends, and however its connection ends, the database that was well
  -- formed and had its queues within their capacities is so afterwards.
  pub process_control-IsSound :
      (fuel : ℕ) (s : Session Map) {r : Result (Unit {0}) × Session Map}
      → process_control S ctl fuel s ≡ some r
      → IsSound S L s.db
      → IsSound S L r.1.db
  process_control-IsSound fuel s e h =
      process_control-OnDb S ctl (IsSound S L) IsSound-KeptBy fuel s e h
