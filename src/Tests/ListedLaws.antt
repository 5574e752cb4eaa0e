-- ===== src/Tests/ListedLaws.antt =====
-- The map of two lists meets the laws that the database relies on.
use psrt.Prelude.{
  ◌≡◌, refl, true, false, ◌&&◌, none, some, List, [], ◌∷◌, arith, if◌then◌else◌, All, Bool-cases,
  inl, inr,
}
use psrt.Prelude.Bytes.{Bytes, beq, beq_iff, beq_refl}
use psrt.Prelude.Split.{split_on}
use psrt.Topic.{slash}
use psrt.Acl.{matches_chunks}
use psrt.PubSub.Submap.{ServerClient, SubMapLaws, holds_digest, AreDistinct}
use psrt.Tests.ListedMap.{
  ListedMap, listed_map, find, drop_client, has_sub, drop_subs, drop_sub, wants, wanting, firsts,
  is_some, is_subscribed,
}

find-drop_client :
    (d e : Bytes) (cs : List ServerClient)
    → find e (drop_client d cs) ≡ (if beq d e then none else find e cs)
find-drop_client d e [] = ground arith
find-drop_client d e (c ∷ cs) =
    ground (arith, find-drop_client d e cs, beq_iff c.digest d, beq_iff c.digest e, beq_iff d e)

has_sub-drop_subs :
    (d e u : Bytes) (subs : List (Bytes × Bytes))
    → has_sub e u (drop_subs d subs) ≡ (if beq d e then false else has_sub e u subs)
has_sub-drop_subs d e u [] = ground arith
has_sub-drop_subs d e u ((f, v) ∷ subs) =
    ground (arith, has_sub-drop_subs d e u subs, beq_iff f d, beq_iff f e, beq_iff d e)

has_sub-drop_sub :
    (d t e u : Bytes) (subs : List (Bytes × Bytes))
    → has_sub e u (drop_sub d t subs) ≡ (if beq d e && beq t u then false else has_sub e u subs)
has_sub-drop_sub d t e u [] = ground arith
has_sub-drop_sub d t e u ((f, v) ∷ subs) = ground (
  arith,
  has_sub-drop_sub d t e u subs,
  beq_iff f d,
  beq_iff f e,
  beq_iff d e,
  beq_iff v t,
  beq_iff v u,
  beq_iff t u,
)

wants-of_sub :
    (t d u : Bytes) (subs : List (Bytes × Bytes))
    → has_sub d u subs ≡ true
    → matches_chunks (split_on slash t) (split_on slash u) ≡ true
    → wants t d subs ≡ true
wants-of_sub t d u [] h k = cc
wants-of_sub t d u ((e, v) ∷ subs) h k = ground (arith, beq_iff v u, wants-of_sub t d u subs)

abbrev Wanted : Bytes → Bytes → List (Bytes × Bytes) → Type 0
Wanted t d subs =
    (u : Bytes) × (has_sub d u subs ≡ true)
    × (matches_chunks (split_on slash t) (split_on slash u) ≡ true)

sub-of_wants : (t d : Bytes) (subs : List (Bytes × Bytes)) → wants t d subs ≡ true → Wanted t d subs
sub-of_wants t d [] h = cc
sub-of_wants t d ((e, v) ∷ subs) h =
    elim (Bool-cases (beq e d && matches_chunks (split_on slash t) (split_on slash v))) [
      | inl fits ↦ (v, ground (arith, beq_refl v), ground arith)
      | inr n ↦ let (u, on, fits) = sub-of_wants t d subs (ground arith) in (u, ground arith, fits)
    ]

holds-of_find :
    (t d : Bytes) (subs : List (Bytes × Bytes)) (cs : List ServerClient)
    → is_some (find d cs) ≡ true
    → wants t d subs ≡ true
    → holds_digest d (wanting t subs cs) ≡ true
holds-of_find t d subs [] h k = cc
holds-of_find t d subs (c ∷ cs) h k = ground (arith, holds-of_find t d subs cs, beq_iff c.digest d)

find-of_holds :
    (t d : Bytes) (subs : List (Bytes × Bytes)) (cs : List ServerClient)
    → holds_digest d (wanting t subs cs) ≡ true
    → (is_some (find d cs) ≡ true) × (wants t d subs ≡ true)
find-of_holds t d subs [] h = cc
find-of_holds t d subs (c ∷ cs) h = ground (arith, find-of_holds t d subs cs, beq_iff c.digest d)

find-firsts : (d : Bytes) (cs : List ServerClient) → find d (firsts cs) ≡ find d cs
find-firsts d [] = refl
find-firsts d (c ∷ cs) =
    ground (arith, find-drop_client c.digest d (firsts cs), find-firsts d cs, beq_iff c.digest d)

holds-drop_client :
    (d e : Bytes) (cs : List ServerClient)
    → holds_digest e (drop_client d cs) ≡ (if beq d e then false else holds_digest e cs)
holds-drop_client d e [] = ground arith
holds-drop_client d e (c ∷ cs) =
    ground (arith, holds-drop_client d e cs, beq_iff c.digest d, beq_iff c.digest e, beq_iff d e)

drop_client-AreDistinct :
    (d : Bytes) (cs : List ServerClient) → AreDistinct cs → AreDistinct (drop_client d cs)
drop_client-AreDistinct d [] h = tt
drop_client-AreDistinct d (c ∷ cs) (own, rest) = elim (Bool-cases (beq c.digest d)) [
  | inl e ↦ rw e (drop_client-AreDistinct d cs rest)
  | inr n ↦
      rw n (ground (arith, own, holds-drop_client d c.digest cs), drop_client-AreDistinct d cs rest)
]

firsts-AreDistinct : (cs : List ServerClient) → AreDistinct (firsts cs)
firsts-AreDistinct [] = tt
firsts-AreDistinct (c ∷ cs) = (
  ground (arith, holds-drop_client c.digest c.digest (firsts cs), beq_refl c.digest),
  drop_client-AreDistinct c.digest (firsts cs) (firsts-AreDistinct cs),
)

holds-wanting :
    (t e : Bytes) (subs : List (Bytes × Bytes)) (cs : List ServerClient)
    → holds_digest e cs ≡ false
    → holds_digest e (wanting t subs cs) ≡ false
holds-wanting t e subs [] h = refl
holds-wanting t e subs (c ∷ cs) h = ground (arith, h, holds-wanting t e subs cs)

wanting-AreDistinct :
    (t : Bytes) (subs : List (Bytes × Bytes)) (cs : List ServerClient)
    → AreDistinct cs
    → AreDistinct (wanting t subs cs)
wanting-AreDistinct t subs [] h = tt
wanting-AreDistinct t subs (c ∷ cs) (own, rest) = elim (Bool-cases (wants t c.digest subs)) [
  | inl e ↦ rw e (holds-wanting t c.digest subs cs own, wanting-AreDistinct t subs cs rest)
  | inr n ↦ rw n (wanting-AreDistinct t subs cs rest)
]

module _ (P : ServerClient → Type 0) where
  wanting-All :
      (t : Bytes) (subs : List (Bytes × Bytes)) (cs : List ServerClient)
      → All P cs
      → All P (wanting t subs cs)
  wanting-All t subs [] h = tt
  wanting-All t subs (c ∷ cs) (own, rest) = elim (Bool-cases (wants t c.digest subs)) [
    | inl e ↦ rw e (own, wanting-All t subs cs rest)
    | inr n ↦ rw n (wanting-All t subs cs rest)
  ]

  drop_client-All : (d : Bytes) (cs : List ServerClient) → All P cs → All P (drop_client d cs)
  drop_client-All d [] h = tt
  drop_client-All d (c ∷ cs) (own, rest) = elim (Bool-cases (beq c.digest d)) [
    | inl e ↦ rw e (drop_client-All d cs rest)
    | inr n ↦ rw n (own, drop_client-All d cs rest)
  ]

found_behind :
    (c : ServerClient) (cs all : List ServerClient)
    → holds_digest c.digest cs ≡ false
    → All (λ b. find b.digest all ≡ some b) cs
    → All (λ b. find b.digest (c ∷ all) ≡ some b) cs
found_behind c [] all h k = tt
found_behind c (b ∷ cs) all h (own, rest) = (
  ground (arith, h, own, beq_iff c.digest b.digest, beq_iff b.digest c.digest),
  found_behind c cs all (ground (arith, h)) rest,
)

firsts-found : (cs : List ServerClient) → All (λ b. find b.digest cs ≡ some b) (firsts cs)
firsts-found [] = tt
firsts-found (c ∷ cs) = (
  ground (arith, beq_refl c.digest),
  found_behind c (drop_client c.digest (firsts cs)) cs
      (ground (arith, holds-drop_client c.digest c.digest (firsts cs), beq_refl c.digest))
      (drop_client-All (λ b. find b.digest cs ≡ some b) c.digest (firsts cs) (firsts-found cs)),
)

subscription :
    (t d : Bytes) (m : ListedMap)
    → holds_digest d (wanting t m.subs (firsts m.clients)) ≡ true
    → (u : Bytes) × (is_subscribed m d u ≡ true)
      × (matches_chunks (split_on slash t) (split_on slash u) ≡ true)
subscription t d m h =
    let (there, wanted) = find-of_holds t d m.subs (firsts m.clients) h in
    let (u, on, fits) = sub-of_wants t d m.subs wanted in
    (u, ground (arith, there, on, find-firsts d m.clients), fits)

unfoldable pub listed_laws : SubMapLaws listed_map
unfolding find-drop_client has_sub-drop_subs has_sub-drop_sub wants-of_sub holds-of_find
    subscription find-of_holds sub-of_wants find-firsts wanting-All firsts-found wanting-AreDistinct
    firsts-AreDistinct found_behind holds-drop_client drop_client-All holds-wanting
    drop_client-AreDistinct
listed_laws = record {
  client_of = λ m d. find d m.clients;
  subscribed = is_subscribed;
  client_of-new = λ d. refl;
  register_fresh = λ c m h. (ground arith, λ d. ground arith);
  register_known = λ c b m h. (ground arith, λ d. ground arith);
  subscribed-new = λ d t. refl;
  subscribed-register =
      λ c m d t. ground (arith, has_sub-drop_subs c.digest d t m.subs, beq_iff c.digest d);
  client_of-unregister = λ c m d. find-drop_client c.digest d m.clients;
  subscribed-unregister = λ c m d t.
      ground (arith, find-drop_client c.digest d m.clients, has_sub-drop_subs c.digest d t m.subs);
  client_of-subscribe = λ t c m d. refl;
  client_of-unsubscribe = λ t c m d. refl;
  subscribed-subscribe = λ t u c b m d h. ground (arith, beq_iff c.digest d);
  subscribed-unsubscribe = λ t u c m d. ground (arith, has_sub-drop_sub c.digest t d u m.subs);
  subscriber_of = λ t u d m on fits.
      holds-of_find t d m.subs (firsts m.clients) (ground (arith, find-firsts d m.clients))
        (wants-of_sub t d u m.subs (ground arith) fits);
  subscription_of = subscription;
  subscribers_known = λ t m.
      wanting-All (λ b. find b.digest m.clients ≡ some b) t m.subs (firsts m.clients)
        (firsts-found m.clients);
  subscribers_distinct =
      λ t m. wanting-AreDistinct t m.subs (firsts m.clients) (firsts-AreDistinct m.clients);
}
