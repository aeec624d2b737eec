-- ===== src/InstanceTypes/Offers/Withdrawn.antt =====
-- What the offering provider answers to any number of calls after an offering was marked.
use karpenter_provider_linod.Base.{
  ℕ, ◌≡◌, ◌≤◌, ◌<◌, refl, sym, ◌∙◌, subst, ◌≢◌, ◌⊎◌, inl, inr, Bool, true, false, Option, none,
  some, List, [], ◌∷◌, arith, Bool-cases, All, Text, text_eq, lookup, lookup-insert,
}
use karpenter_provider_linod.Cache.{CacheOps, CacheLaws}
use karpenter_provider_linod.Offerings.{seq_num, is_unavailable, UnavailableOfferings}
use karpenter_provider_linod.InstanceTypes.Types.{Offering, InstanceType}
use karpenter_provider_linod.InstanceTypes.Offers.{
  is_last, cache_key_from_instance_type, new_offerings, offerings_by, store_offerings,
  create_offerings, OfferingProvider, Plans,
}
use karpenter_provider_linod.InstanceTypes.Offers.Marked.{
  offers_region, is_last_stale, offers_region-new_offerings,
}

-- one call of createOfferings: its time, its plans and its instance type
abbrev pub Ask : Type 0
Ask = ℕ × Plans × InstanceType

some_inj : {A : Type 0} (a b : A) → some a ≡ some b → a ≡ b
some_inj a b h = ground (arith, h)

module _ (regions_hash : List Text → Text) where
  abbrev key_of : InstanceType → Text
  key_of = cache_key_from_instance_type regions_hash

  -- the call is for the instance type, or for one with another name and another key in the cache
  abbrev pub SameOrApart : InstanceType → InstanceType → Type 0
  SameOrApart it j =
      (j ≡ it)
      ⊎ ((text_eq j.name it.name ≡ false)
          × (text_eq (cache_key_from_instance_type regions_hash j)
                (cache_key_from_instance_type regions_hash it)
              ≡ false))

  -- an ask in time, for the instance type or for one apart from it
  abbrev pub InTime : InstanceType → ℕ → ℕ → Ask → Type 0
  InTime it from until (now, plans, j) = (from ≤ now) × (now < until) × SameOrApart it j

module _ {C M : Type 0} (ops : CacheOps C (List Offering)) (marks : CacheOps M (Unit {0}))
    (regions_hash : List Text → Text) where
  -- the provider after calls with the same marks
  unfoldable pub after_asks :
      UnavailableOfferings M → List Ask → OfferingProvider C → OfferingProvider C
  after_asks u [] p = p
  after_asks u ((now, plans, it) ∷ asks) p =
      after_asks u asks (create_offerings ops marks regions_hash u now plans p it).1

  module _ (ttl : ℕ) (laws : CacheLaws ops ttl) (u : UnavailableOfferings M) (it : InstanceType)
      (region : Text) where
    -- the provider has not seen the sequence number of the marks, or what is cached for the instance
    -- type leaves the region out
    abbrev Safe : OfferingProvider C → Type 0
    Safe p =
        ((m : ℕ) × (lookup it.name p.last_seq_num ≡ some m) × (seq_num u it.name ≢ m))
        ⊎ ((t : ℕ) (os : List Offering)
            → ops.get p.cache t (key_of regions_hash it) ≡ some os
            → offers_region region os ≡ false)

    store-Safe :
        (p : OfferingProvider C) (now : ℕ) (seq : ℕ) (fresh : List Offering)
        → offers_region region fresh ≡ false
        → Safe (store_offerings ops (key_of regions_hash it) p now it.name seq fresh)
    unfolding store_offerings
    store-Safe p now seq fresh h = inr λ t os found.
        elim (laws.get-set_only p.cache now t (key_of regions_hash it) fresh) [
          | inl gone ↦ absurd (ground (arith, gone, found))
          | inr kept ↦
              subst (λ o. offers_region region o ≡ false) (some_inj fresh os (sym kept ∙ found)) h
        ]

    -- the two branches, on an answer of the cache
    offerings_by-Safe :
        (p stored : OfferingProvider C) (now : ℕ) (cached : Option (List Offering))
        (fresh : List Offering)
        → ops.get p.cache now (key_of regions_hash it) ≡ cached
        → offers_region region fresh ≡ false
        → Safe stored
        → Safe p
        → (offers_region region
              (offerings_by cached
                (is_last (lookup it.name p.last_seq_num) (seq_num u it.name))
                fresh
                stored
                p).0
            ≡ false)
          × Safe
              (offerings_by cached
                (is_last (lookup it.name p.last_seq_num) (seq_num u it.name))
                fresh
                stored
                p).1
    unfolding offerings_by
    offerings_by-Safe p stored now none fresh found h safe_stored safe = (h, safe_stored)
    offerings_by-Safe p stored now (some os) fresh found h safe_stored safe = elim (safe) [
      | inl (m, seen, moved) ↦ rw (seen, is_last_stale m (seq_num u it.name) moved) (h, safe_stored)
      | inr out ↦ elim (Bool-cases (is_last (lookup it.name p.last_seq_num) (seq_num u it.name))) [
        | inl last ↦ rw last (out now os found, inr out)
        | inr stale ↦ rw stale (h, safe_stored)
      ]
    ]

    ask-Safe :
        (now : ℕ) (plans : Plans) (p : OfferingProvider C)
        → is_unavailable marks u now it.name region ≡ true
        → Safe p
        → (offers_region region (create_offerings ops marks regions_hash u now plans p it).0
            ≡ false)
          × Safe (create_offerings ops marks regions_hash u now plans p it).1
    unfolding create_offerings
    ask-Safe now plans p gone safe =
        let out : offers_region region (new_offerings marks u now plans it.name plans.regions)
            ≡ false =
          offers_region-new_offerings marks u now plans it.name region plans.regions
          ∙ rw gone (ground arith) in
        offerings_by-Safe p _ now _ _ refl out (store-Safe p now _ _ out) safe

    -- a call for another instance type
    offerings_by-either :
        (P : OfferingProvider C → Type 0) (cached : Option (List Offering)) (last : Bool)
        (fresh : List Offering) (stored p : OfferingProvider C)
        → P stored
        → P p
        → P (offerings_by cached last fresh stored p).1
    unfolding offerings_by
    offerings_by-either P none last fresh stored p h k = h
    offerings_by-either P (some os) true fresh stored p h k = k
    offerings_by-either P (some os) false fresh stored p h k = h

    store-apart :
        (p : OfferingProvider C) (now : ℕ) (j : InstanceType) (seq : ℕ) (fresh : List Offering)
        → text_eq j.name it.name ≡ false
        → text_eq (key_of regions_hash j) (key_of regions_hash it) ≡ false
        → Safe p
        → Safe (store_offerings ops (key_of regions_hash j) p now j.name seq fresh)
    unfolding store_offerings
    store-apart p now j seq fresh names keys (inl (m, seen, moved)) =
        inl (m, rw (lookup-insert, names) seen, moved)
    store-apart p now j seq fresh names keys (inr out) = inr λ t os found. out t os (
        sym (
          laws.get-set_ne p.cache now t (key_of regions_hash it) (key_of regions_hash j) fresh keys)
        ∙ found)

    other-Safe :
        (now : ℕ) (plans : Plans) (p : OfferingProvider C) (j : InstanceType)
        → text_eq j.name it.name ≡ false
        → text_eq (key_of regions_hash j) (key_of regions_hash it) ≡ false
        → Safe p
        → Safe (create_offerings ops marks regions_hash u now plans p j).1
    unfolding create_offerings
    other-Safe now plans p j names keys safe =
        offerings_by-either Safe _ _ _ _ p (store-apart p now j _ _ names keys safe) safe

    after_asks-Safe :
        (from until : ℕ)
        → ((t : ℕ) → from ≤ t → t < until → is_unavailable marks u t it.name region ≡ true)
        → (asks : List Ask) (p : OfferingProvider C) → All (InTime regions_hash it from until) asks
        → Safe p
        → Safe (after_asks u asks p)
    unfolding after_asks
    after_asks-Safe from until gone [] p h safe = safe
    after_asks-Safe from until gone ((now, plans, j) ∷ asks) p ((le, lt, inl same), rest) safe =
        after_asks-Safe from until gone asks _ rest (
          subst (λ i. Safe (create_offerings ops marks regions_hash u now plans p i).1) (sym same)
            ((ask-Safe now plans p (gone now le lt) safe).1))
    after_asks-Safe from until gone ((now, plans, j) ∷ asks) p ((le, lt, inr (names, keys)), rest)
          safe =
        after_asks-Safe from until gone asks _ rest (other-Safe now plans p j names keys safe)

  -- A provider that had last answered for the type under another sequence number leaves the region out
  -- of every later answer, while the type is unavailable there.
  pub create_offerings-after_asks :
      (ttl : ℕ) (laws : CacheLaws ops ttl) (u : UnavailableOfferings M) (it : InstanceType)
      (region : Text) (from until m : ℕ) (asks : List Ask) (p : OfferingProvider C) (later : ℕ)
      (plans : Plans)
      → ((t : ℕ) → from ≤ t → t < until → is_unavailable marks u t it.name region ≡ true)
      → lookup it.name p.last_seq_num ≡ some m
      → seq_num u it.name ≢ m
      → All (InTime regions_hash it from until) asks
      → from ≤ later
      → later < until
      → offers_region region
          (create_offerings ops marks regions_hash u later plans (after_asks u asks p) it).0
        ≡ false
  create_offerings-after_asks ttl laws u it region from until m asks p later plans gone seen moved
        in_time le lt =
      (ask-Safe ttl laws u it region later plans _ (gone later le lt) (
        after_asks-Safe ttl laws u it region from until gone asks p in_time
          (inl (m, seen, moved)))).0
