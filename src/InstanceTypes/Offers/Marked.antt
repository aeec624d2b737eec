-- ===== src/InstanceTypes/Offers/Marked.antt =====
-- What the offering provider answers after an offering was marked as unavailable.
use karpenter_provider_linod.Base.{
  ℕ, ◌+◌, ◌≤◌, ◌<◌, ◌≡◌, refl, sym, ap, ◌≢◌, inl, inr, Bool, true, false, not, ◌&&◌, ◌||◌, Option,
  none, some, List, [], ◌∷◌, arith, ◌==◌, ==_iff, Bool-cases, Text, text_eq, text_eq_iff,
  text_eq_refl, contains, lookup, lookup-insert, ◌∙◌,
}
use karpenter_provider_linod.Cache.{CacheOps, CacheLaws}
use karpenter_provider_linod.Offerings.{
  unavailable_offerings_ttl, seq_num, is_unavailable, mark_unavailable, UnavailableOfferings,
}
use karpenter_provider_linod.Offerings.Marks.{
  is_unavailable-mark_unavailable, seq_num-mark_unavailable,
}
use karpenter_provider_linod.InstanceTypes.Types.{Offering, InstanceType}
use karpenter_provider_linod.InstanceTypes.Offers.{
  offers, is_last, new_offering, new_offerings, store_offerings, offerings_by, create_offerings,
  OfferingProvider, Plans,
}

-- whether the region has an available offering in the list
unfoldable pub offers_region : Text → List Offering → Bool
offers_region region [] = false
offers_region region (o ∷ os) = (text_eq o.region region && o.available) || offers_region region os

is_last_iff : (o : Option ℕ) (n : ℕ) → is_last o n ≡ true → o ≡ some n
is_last_iff none n h = absurd (ground arith)
is_last_iff (some m) n h = ap some ((==_iff m n).0 h)

pub is_last_stale : (m n : ℕ) → n ≢ m → is_last (some m) n ≡ false
is_last_stale m n ne = elim (Bool-cases (m == n)) [
  | inl same ↦ absurd (ne (sym ((==_iff m n).0 same)))
  | inr elsewhere ↦ elsewhere
]

module _ {M : Type 0} (marks : CacheOps M (Unit {0})) where
  pub offers_region-new_offerings :
      (u : UnavailableOfferings M) (now : ℕ) (plans : Plans) (name region : Text)
      (regions : List Text)
      → offers_region region (new_offerings marks u now plans name regions) ≡ (
          contains region regions
          && (offers (lookup name plans.offered) region
              && not (is_unavailable marks u now name region)))
  unfolding offers_region new_offerings new_offering contains
  offers_region-new_offerings u now plans name region [] = refl
  offers_region-new_offerings u now plans name region (r ∷ rs) =
      elim (Bool-cases (text_eq r region)) [
        | inl same ↦
            rw ((text_eq_iff r region).0 same, text_eq_refl region)
              (ground (arith, offers_region-new_offerings u now plans name region rs))
        | inr elsewhere ↦ rw elsewhere (offers_region-new_offerings u now plans name region rs)
      ]

module _ {C M : Type 0} (ops : CacheOps C (List Offering)) (marks : CacheOps M (Unit {0}))
    (regions_hash : List Text → Text) where
  offerings_by-last :
      (cached : Option (List Offering)) (name : Text) (n : ℕ) (fresh : List Offering)
      (stored p : OfferingProvider C)
      → lookup name stored.last_seq_num ≡ some n
      → lookup name
          (offerings_by cached
            (is_last (lookup name p.last_seq_num) n)
            fresh
            stored
            p).1.last_seq_num
        ≡ some n
  unfolding offerings_by
  offerings_by-last none name n fresh stored p h = h
  offerings_by-last (some os) name n fresh stored p h =
      elim (Bool-cases (is_last (lookup name p.last_seq_num) n)) [
        | inl same ↦ rw same (is_last_iff _ n same)
        | inr elsewhere ↦ rw elsewhere h
      ]

  -- The last number of an instance type is the one that its offerings were last asked with.
  pub create_offerings-last :
      (u : UnavailableOfferings M) (now : ℕ) (plans : Plans) (p : OfferingProvider C)
      (it : InstanceType)
      → lookup it.name (create_offerings ops marks regions_hash u now plans p it).1.last_seq_num
        ≡ some (seq_num u it.name)
  unfolding create_offerings store_offerings
  create_offerings-last u now plans p it =
      offerings_by-last _ it.name _ _ _ p (rw (lookup-insert, text_eq_refl it.name) refl)

  offerings_by-stale :
      (cached : Option (List Offering)) (last : Bool) (fresh : List Offering)
      (stored p : OfferingProvider C)
      → last ≡ false
      → offerings_by cached last fresh stored p ≡ (fresh, stored)
  unfolding offerings_by
  offerings_by-stale none last fresh stored p h = refl
  offerings_by-stale (some os) last fresh stored p h = rw h refl

  -- Offerings that were asked for under another sequence number are computed again.
  create_offerings-stale :
      (u : UnavailableOfferings M) (now : ℕ) (plans : Plans) (p : OfferingProvider C)
      (it : InstanceType) (m : ℕ)
      → lookup it.name p.last_seq_num ≡ some m
      → seq_num u it.name ≢ m
      → (create_offerings ops marks regions_hash u now plans p it).0
        ≡ new_offerings marks u now plans it.name plans.regions
  unfolding create_offerings
  create_offerings-stale u now plans p it m h ne =
      ap (λ r. r.0) (offerings_by-stale _ _ _ _ _ (rw h (is_last_stale m _ ne)))

  -- Between two calls the sequence number changed.
  pub create_offerings-changed :
      (u changed : UnavailableOfferings M) (first later : ℕ) (before after : Plans)
      (p : OfferingProvider C) (it : InstanceType) (region : Text)
      → seq_num changed it.name ≢ seq_num u it.name
      → offers_region region
          (create_offerings ops marks regions_hash changed later after
            (create_offerings ops marks regions_hash u first before p it).1
            it).0
        ≡ (contains region after.regions
            && (offers (lookup it.name after.offered) region
                && not (is_unavailable marks changed later it.name region)))
  create_offerings-changed u changed first later before after p it region moved =
      ap (offers_region region) (
        create_offerings-stale changed later after
          (create_offerings ops marks regions_hash u first before p it).1 it (seq_num u it.name)
          (create_offerings-last u first before p it) moved)
      ∙ offers_region-new_offerings marks changed later after it.name region after.regions

  -- the same for a region in which the type is unavailable then
  pub create_offerings-withdrawn :
      (u changed : UnavailableOfferings M) (first later : ℕ) (before after : Plans)
      (p : OfferingProvider C) (it : InstanceType) (region : Text)
      → seq_num changed it.name ≢ seq_num u it.name
      → is_unavailable marks changed later it.name region ≡ true
      → offers_region region
          (create_offerings ops marks regions_hash changed later after
            (create_offerings ops marks regions_hash u first before p it).1
            it).0
        ≡ false
  create_offerings-withdrawn u changed first later before after p it region moved gone =
      create_offerings-changed u changed first later before after p it region moved
      ∙ rw gone (ground arith)

  -- Given the laws of the cache of the marks, when an offering is marked between two calls, then for
  -- three minutes the second call leaves out that region, whatever the cache of offerings holds. Any
  -- region is offered exactly if it is a region of the plans, the plans offer the type there, and the
  -- offering is not marked.
  pub create_offerings-marked :
      (laws : CacheLaws marks unavailable_offerings_ttl) (u : UnavailableOfferings M)
      (first now later : ℕ) (before after : Plans) (p : OfferingProvider C) (it : InstanceType)
      (region other_region : Text)
      → now ≤ later
      → later < now + unavailable_offerings_ttl
      → (offers_region region
            (create_offerings ops marks regions_hash
              (mark_unavailable marks u now it.name region)
              later
              after
              (create_offerings ops marks regions_hash u first before p it).1
              it).0
          ≡ false)
        × (offers_region other_region
              (create_offerings ops marks regions_hash
                (mark_unavailable marks u now it.name region)
                later
                after
                (create_offerings ops marks regions_hash u first before p it).1
                it).0
            ≡ (contains other_region after.regions
                && (offers (lookup it.name after.offered) other_region
                    && not (
                        is_unavailable marks
                          (mark_unavailable marks u now it.name region)
                          later
                          it.name
                          other_region))))
  create_offerings-marked laws u first now later before after p it region elsewhere le lt = (
    create_offerings-withdrawn u (mark_unavailable marks u now it.name region) first later before
        after p it region (seq_num-mark_unavailable marks laws u now it.name region)
        (is_unavailable-mark_unavailable marks laws u now later it.name region le lt),
    create_offerings-changed u (mark_unavailable marks u now it.name region) first later before
        after p it elsewhere (seq_num-mark_unavailable marks laws u now it.name region),
  )
