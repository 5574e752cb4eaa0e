-- ===== src/Tests/ListedMap.antt =====
-- A subscription map as two lists.
use psrt.Prelude.{
  Bool, true, false, ◌&&◌, ◌||◌, Option, none, some, List, [], ◌∷◌, if◌then◌else◌, length,
}
use psrt.Prelude.Bytes.{Bytes, beq}
use psrt.Prelude.Split.{split_on}
use psrt.Topic.{slash}
use psrt.Acl.{matches_chunks}
use psrt.PubSub.Submap.{ServerClient, SubMap}

pub record ListedMap : Type 0 where
  pub clients : List ServerClient
  pub subs : List (Bytes × Bytes)

abbrev pub find : Bytes → List ServerClient → Option ServerClient
find d [] = none
find d (c ∷ cs) = if beq c.digest d then some c else find d cs

abbrev pub drop_client : Bytes → List ServerClient → List ServerClient
drop_client d [] = []
drop_client d (c ∷ cs) = if beq c.digest d then drop_client d cs else c ∷ drop_client d cs

abbrev pub has_sub : Bytes → Bytes → List (Bytes × Bytes) → Bool
has_sub d u [] = false
has_sub d u ((e, v) ∷ subs) = (beq e d && beq v u) || has_sub d u subs

-- Leave out what `d` is subscribed to, or only `u` of it.
abbrev pub drop_subs : Bytes → List (Bytes × Bytes) → List (Bytes × Bytes)
drop_subs d [] = []
drop_subs d ((e, v) ∷ subs) = if beq e d then drop_subs d subs else (e, v) ∷ drop_subs d subs

abbrev pub drop_sub : Bytes → Bytes → List (Bytes × Bytes) → List (Bytes × Bytes)
drop_sub d u [] = []
drop_sub d u ((e, v) ∷ subs) =
    if beq e d && beq v u then drop_sub d u subs else (e, v) ∷ drop_sub d u subs

abbrev pub wants : Bytes → Bytes → List (Bytes × Bytes) → Bool
wants t d [] = false
wants t d ((e, v) ∷ subs) =
    (beq e d && matches_chunks (split_on slash t) (split_on slash v)) || wants t d subs

abbrev pub wanting : Bytes → List (Bytes × Bytes) → List ServerClient → List ServerClient
wanting t subs [] = []
wanting t subs (c ∷ cs) = if wants t c.digest subs then c ∷ wanting t subs cs else wanting t subs cs

-- Each digest with the client that is found under it.
abbrev pub firsts : List ServerClient → List ServerClient
firsts [] = []
firsts (c ∷ cs) = c ∷ drop_client c.digest (firsts cs)

abbrev pub is_some {ℓ} : {A : Type ℓ} → Option A → Bool
is_some none = false
is_some (some a) = true

abbrev pub listed_map : SubMap ListedMap
listed_map = record {
  sha256 = λ t. t;
  new = record { clients = []; subs = [] };
  register_client = λ c m.
      if is_some (find c.digest m.clients)
      then (false, m)
      else (true, record { clients = c ∷ m.clients; subs = drop_subs c.digest m.subs });
  unregister_client =
      λ c m. record { clients = drop_client c.digest m.clients; subs = drop_subs c.digest m.subs };
  subscribe = λ t c m. record m { subs = (c.digest, t) ∷ m.subs };
  unsubscribe = λ t c m. record m { subs = drop_sub c.digest t m.subs };
  get_subscribers = λ t m. wanting t m.subs (firsts m.clients);
  subscription_count = λ m. length m.subs;
  client_count = λ m. length m.clients;
}

abbrev pub is_subscribed : ListedMap → Bytes → Bytes → Bool
is_subscribed m d u = is_some (find d m.clients) && has_sub d u m.subs
