-- ===== src/InstanceTypes/Offers.antt =====
-- The offering provider of pkg/providers/instancetype/offering/offering.go.
pub mod Marked
pub mod Withdrawn
use karpenter_provider_linod.Base.{
  ℕ, Bool, true, false, not, ◌&&◌, Option, none, some, List, [], ◌∷◌, ◌++◌, ◌==◌, Text, contains,
  Dict, lookup, insert,
}
use karpenter_provider_linod.Cache.{CacheOps}
use karpenter_provider_linod.Offerings.{seq_num, is_unavailable, UnavailableOfferings}
use karpenter_provider_linod.InstanceTypes.Types.{
  label_topology_region, Offering, InstanceType, LinodeType,
}

-- DefaultProvider; the unavailable offerings are shared with the instance provider
pub record OfferingProvider (C : Type 0) : Type 0 where
  pub cache : C
  pub last_seq_num : Dict ℕ

-- what InjectOfferings is given of the region availability and of the Linode types
pub record Plans : Type 0 where
  pub types : Dict LinodeType
  pub regions : List Text
  pub offered : Dict (List Text)

-- it.Requirements.Get(corev1.LabelTopologyRegion).Values()
abbrev values_of : Option Text → List Text
values_of none = []
values_of (some v) = v ∷ []

-- linodeType.Price.Hourly, 0 for a type that is missing or has no price
abbrev hourly_price : Option LinodeType → ℕ
hourly_price none = 0
hourly_price (some t) = elim t.hourly [ none ↦ 0 | some price ↦ price ]

-- instanceTypesOfferings[name].Has(region)
abbrev offers : Option (List Text) → Text → Bool
offers none region = false
offers (some regions) region = contains region regions

-- lastSeqNum == seqNum: both are a uint64 if there is a last one; otherwise lastSeqNum is the int 0,
-- which is no uint64
abbrev is_last : Option ℕ → ℕ → Bool
is_last none n = false
is_last (some m) n = m == n

-- with hashstructure.Hash as sixteen hexadecimal digits
module _ (regions_hash : List Text → Text) where
  unfoldable pub cache_key_from_instance_type : InstanceType → Text
  cache_key_from_instance_type it =
      it.name ++ b'-' ∷ regions_hash (values_of (lookup label_topology_region it.requirements))

module _ {M : Type 0} (marks : CacheOps M (Unit {0})) where
  -- the body of the loop over the regions
  unfoldable pub new_offering : UnavailableOfferings M → ℕ → Plans → Text → Text → Offering
  new_offering u now plans name region = record {
    region = region;
    price = hourly_price (lookup name plans.types);
    available =
        offers (lookup name plans.offered) region && not (is_unavailable marks u now name region);
  }

  unfoldable pub new_offerings :
      UnavailableOfferings M → ℕ → Plans → Text → List Text → List Offering
  new_offerings u now plans name [] = []
  new_offerings u now plans name (region ∷ regions) =
      new_offering u now plans name region ∷ new_offerings u now plans name regions

module _ {C : Type 0} where
  -- the two branches, on the cached offerings and on whether the sequence number is the last one
  unfoldable pub offerings_by :
      Option (List Offering)
      → Bool
      → List Offering
      → OfferingProvider C
      → OfferingProvider C
      → List Offering × OfferingProvider C
  offerings_by (some cached) true fresh stored p = (cached, p)
  offerings_by (some cached) false fresh stored p = (fresh, stored)
  offerings_by none last fresh stored p = (fresh, stored)

module _ {C : Type 0} (ops : CacheOps C (List Offering)) where
  unfoldable pub store_offerings :
      Text → OfferingProvider C → ℕ → Text → ℕ → List Offering → OfferingProvider C
  store_offerings key p now name seq offerings = record {
    cache = ops.set_default p.cache now key offerings;
    last_seq_num = insert name seq p.last_seq_num;
  }

  -- InvalidateCache
  unfoldable pub invalidate_cache : OfferingProvider C → OfferingProvider C
  invalidate_cache p = record p { cache = ops.flush p.cache }

module _ {C M : Type 0} (ops : CacheOps C (List Offering)) (marks : CacheOps M (Unit {0}))
    (regions_hash : List Text → Text) where
  unfoldable pub create_offerings :
      UnavailableOfferings M
      → ℕ
      → Plans
      → OfferingProvider C
      → InstanceType
      → List Offering × OfferingProvider C
  create_offerings u now plans p it =
      let seq = seq_num u it.name in
      let fresh = new_offerings marks u now plans it.name plans.regions in
      offerings_by (ops.get p.cache now (cache_key_from_instance_type regions_hash it))
        (is_last (lookup it.name p.last_seq_num) seq) fresh
        (store_offerings ops (cache_key_from_instance_type regions_hash it) p now it.name seq fresh)
        p

  unfoldable pub inject_offerings :
      UnavailableOfferings M
      → ℕ
      → Plans
      → OfferingProvider C
      → List InstanceType
      → List InstanceType × OfferingProvider C
  inject_offerings u now plans p [] = ([], p)
  inject_offerings u now plans p (it ∷ its) =
      let (offerings, after) = create_offerings u now plans p it in
      let (rest, last) = inject_offerings u now plans after its in
      (record it { offerings = offerings } ∷ rest, last)

-- NewDefaultProvider
unfoldable pub new_offering_provider : {C : Type 0} → C → OfferingProvider C
new_offering_provider cache = record { cache = cache; last_seq_num = [] }
