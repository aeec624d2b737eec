-- ===== src/Offerings.antt =====
-- UnavailableOfferings of pkg/cache/unavailableofferings.go: the two caches of recent capacity
-- shortages, and the sequence numbers that tell the readers of an instance type of a change.
pub mod Marks
pub mod Evictions
pub mod Update
use karpenter_provider_linod.Base.{
  ℕ, ◌+◌, ◌%◌, ◌^◌, Bool, true, false, ◌||◌, Option, none, some, ◌∷◌, ◌++◌, Text, Dict, lookup,
  insert, List, [], ◌==◌, if◌then◌else◌,
}
use karpenter_provider_linod.Cache.{CacheOps}

-- UnavailableOfferingsTTL
abbrev pub unavailable_offerings_ttl : ℕ
unavailable_offerings_ttl = 180000000000

pub record UnavailableOfferings (C : Type 0) : Type 0 where
  pub offering_cache : C
  pub offering_seq_num : Dict ℕ
  pub region_cache : C
  pub region_seq_num : ℕ

abbrev pub uint64 : ℕ → ℕ
uint64 n = n % 2 ^ 64

abbrev zero_if_missing : Option ℕ → ℕ
zero_if_missing none = 0
zero_if_missing (some n) = n

-- seq[k]++
unfoldable pub bump : Text → Dict ℕ → Dict ℕ
bump k seq = insert k (uint64 (zero_if_missing (lookup k seq) + 1)) seq

-- u.key
unfoldable pub offering_key : Text → Text → Text
offering_key instance_type region = instance_type ++ b':' ∷ region

module _ {C : Type 0} where
  unfoldable pub seq_num : UnavailableOfferings C → Text → ℕ
  seq_num u instance_type =
      uint64 (zero_if_missing (lookup instance_type u.offering_seq_num) + u.region_seq_num)

-- the second result of a cache's Get
abbrev found : Option (Unit {0}) → Bool
found none = false
found (some _) = true

module _ {C : Type 0} (ops : CacheOps C (Unit {0})) where
  unfoldable pub is_unavailable : UnavailableOfferings C → ℕ → Text → Text → Bool
  is_unavailable u now instance_type region =
      found (ops.get u.offering_cache now (offering_key instance_type region))
      || found (ops.get u.region_cache now region)

  unfoldable pub mark_unavailable :
      UnavailableOfferings C → ℕ → Text → Text → UnavailableOfferings C
  mark_unavailable u now instance_type region = record u {
    offering_cache = ops.set_default u.offering_cache now (offering_key instance_type region) tt;
    offering_seq_num = bump instance_type u.offering_seq_num;
  }

  unfoldable pub mark_region_unavailable :
      UnavailableOfferings C → ℕ → Text → UnavailableOfferings C
  mark_region_unavailable u now region = record u {
    region_cache = ops.set_default u.region_cache now region tt;
    region_seq_num = uint64 (u.region_seq_num + 1);
  }

  -- Delete and Flush; the callbacks of the entries that they drop are on_offering_evicted and
  -- on_region_evicted, which the cache calls as it documents
  unfoldable pub delete_offering : UnavailableOfferings C → Text → Text → UnavailableOfferings C
  delete_offering u instance_type region = record u {
    offering_cache = ops.delete_key u.offering_cache (offering_key instance_type region);
  }

  unfoldable pub flush_offerings : UnavailableOfferings C → UnavailableOfferings C
  flush_offerings u = record u {
    offering_cache = ops.flush u.offering_cache;
    region_cache = ops.flush u.region_cache;
  }

-- NewUnavailableOfferings
unfoldable pub new_unavailable_offerings : {C : Type 0} → C → C → UnavailableOfferings C
new_unavailable_offerings offering_cache region_cache = record {
  offering_cache = offering_cache;
  offering_seq_num = [];
  region_cache = region_cache;
  region_seq_num = 0;
}

-- strings.Split(k, ":")
unfoldable pub split_key : Text → List Text
split_key [] = [] ∷ []
split_key (c ∷ cs) =
    let rest = split_key cs in
    if c == b':' then [] ∷ rest else elim rest [ [] ↦ (c ∷ []) ∷ [] | l ∷ ls ↦ (c ∷ l) ∷ ls ]

-- elems[0], if there are two of them; otherwise the callback panics
abbrev type_of_key : List Text → Option Text
type_of_key (instance_type ∷ region ∷ []) = some instance_type
type_of_key _ = none

-- the OnEvicted callbacks; `none` is the panic
unfoldable pub on_offering_evicted :
    {C : Type 0} → UnavailableOfferings C → Text → Option (UnavailableOfferings C)
unfolding split_key bump
on_offering_evicted u k = elim (type_of_key (split_key k)) [
  | none ↦ none
  | some instance_type ↦
      some (record u { offering_seq_num = bump instance_type u.offering_seq_num })
]

unfoldable pub on_region_evicted : {C : Type 0} → UnavailableOfferings C → UnavailableOfferings C
on_region_evicted u = record u { region_seq_num = uint64 (u.region_seq_num + 1) }
