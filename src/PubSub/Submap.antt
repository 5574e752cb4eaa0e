-- ===== src/PubSub/Submap.antt =====
-- The crate `submap`, as far as the client database uses it: its operations, and what its
-- documentation says of them for `+` as `match_any` and `#` as `wildcard`.
use psrt.Prelude.{
  ℕ, ◌≡◌, Bool, true, false, ◌&&◌, Option, none, some, List, if◌then◌else◌, any, [], ◌∷◌, All,
}
use psrt.Prelude.Bytes.{Bytes, beq}
use psrt.Prelude.Split.{split_on}
use psrt.Topic.{slash}
use psrt.Acl.{matches_chunks}

-- `ServerClient`: where the shared object stands, and the digest by which clients are compared.
pub record ServerClient : Type 0 where
  pub digest : Bytes
  pub at : ℕ

abbrev pub holds_digest : Bytes → List ServerClient → Bool
holds_digest d cs = any (λ c. beq c.digest d) cs

-- A set of clients holds each digest once.
abbrev pub AreDistinct : List ServerClient → Type 0
AreDistinct [] = Unit
AreDistinct (c ∷ cs) = (holds_digest c.digest cs ≡ false) × AreDistinct cs

pub record SubMap (Map : Type 0) : Type 0 where
  -- `submap::digest::sha256`
  pub sha256 : Bytes → Bytes
  pub new : Map
  pub register_client : ServerClient → Map → Bool × Map
  pub unregister_client : ServerClient → Map → Map
  pub subscribe : Bytes → ServerClient → Map → Map
  pub unsubscribe : Bytes → ServerClient → Map → Map
  pub get_subscribers : Bytes → Map → List ServerClient
  pub subscription_count : Map → ℕ
  pub client_count : Map → ℕ

-- The documented behaviour, by two views of a map: which client is registered under a digest, and
-- which topics a digest is subscribed to.
pub record SubMapLaws {Map : Type 0} (S : SubMap Map) : Type 0 where
  pub client_of : Map → Bytes → Option ServerClient
  pub subscribed : Map → Bytes → Bytes → Bool
  pub client_of-new : (d : Bytes) → client_of S.new d ≡ none
  -- A registered digest is refused, and nothing changes.
  pub register_fresh :
      (c : ServerClient) (m : Map)
      → client_of m c.digest ≡ none
      → ((S.register_client c m).0 ≡ true)
        × ((d : Bytes)
            → client_of (S.register_client c m).1 d
              ≡ (if beq c.digest d then some c else client_of m d))
  pub register_known :
      (c b : ServerClient) (m : Map)
      → client_of m c.digest ≡ some b
      → ((S.register_client c m).0 ≡ false)
        × ((d : Bytes) → client_of (S.register_client c m).1 d ≡ client_of m d)
  -- Registering a client subscribes nobody to anything.
  pub subscribed-new : (d t : Bytes) → subscribed S.new d t ≡ false
  pub subscribed-register :
      (c : ServerClient) (m : Map) (d t : Bytes)
      → subscribed (S.register_client c m).1 d t ≡ subscribed m d t
  pub client_of-unregister :
      (c : ServerClient) (m : Map) (d : Bytes)
      → client_of (S.unregister_client c m) d ≡ (if beq c.digest d then none else client_of m d)
  pub subscribed-unregister :
      (c : ServerClient) (m : Map) (d t : Bytes)
      → subscribed (S.unregister_client c m) d t
        ≡ (if beq c.digest d then false else subscribed m d t)
  pub client_of-subscribe :
      (t : Bytes) (c : ServerClient) (m : Map) (d : Bytes)
      → client_of (S.subscribe t c m) d ≡ client_of m d
  pub client_of-unsubscribe :
      (t : Bytes) (c : ServerClient) (m : Map) (d : Bytes)
      → client_of (S.unsubscribe t c m) d ≡ client_of m d
  -- Only a registered client is subscribed.
  pub subscribed-subscribe :
      (t u : Bytes) (c b : ServerClient) (m : Map) (d : Bytes)
      → client_of m c.digest ≡ some b
      → subscribed (S.subscribe t c m) d u
        ≡ (if beq c.digest d && beq t u then true else subscribed m d u)
  pub subscribed-unsubscribe :
      (t u : Bytes) (c : ServerClient) (m : Map) (d : Bytes)
      → subscribed (S.unsubscribe t c m) d u
        ≡ (if beq c.digest d && beq t u then false else subscribed m d u)
  -- A client is among the subscribers of a topic if a topic of its subscriptions matches it.
  pub subscriber_of :
      (t u d : Bytes) (m : Map)
      → subscribed m d u ≡ true
      → matches_chunks (split_on slash t) (split_on slash u) ≡ true
      → holds_digest d (S.get_subscribers t m) ≡ true
  pub subscription_of :
      (t d : Bytes) (m : Map)
      → holds_digest d (S.get_subscribers t m) ≡ true
      → (u : Bytes) × (subscribed m d u ≡ true)
        × (matches_chunks (split_on slash t) (split_on slash u) ≡ true)
  -- The subscribers are a `BTreeSet` of registered clients.
  pub subscribers_known :
      (t : Bytes) (m : Map) → All (λ c. client_of m c.digest ≡ some c) (S.get_subscribers t m)
  pub subscribers_distinct : (t : Bytes) (m : Map) → AreDistinct (S.get_subscribers t m)
