-- ===== src/Offerings/Marks.antt =====
-- What marking an offering as unavailable changes.
use karpenter_provider_linod.Base.{
  ℕ, ◌+◌, ◌≤◌, ◌<◌, ◌≡◌, refl, ◌≢◌, true, false, arith, Text, text_eq, text_eq_refl, lookup-insert,
}
use karpenter_provider_linod.Cache.{CacheOps, CacheLaws}
use karpenter_provider_linod.Offerings.{
  unavailable_offerings_ttl, bump, offering_key, seq_num, is_unavailable, mark_unavailable,
  mark_region_unavailable, UnavailableOfferings, uint64,
}

-- one more, modulo 2 ^ 64, is another number, also after an addition
uint64_moves : (m n : ℕ) → uint64 (uint64 (m + 1) + n) ≢ uint64 (m + n)
uint64_moves m n h = omega arith

uint64_moves_right : (m n : ℕ) → uint64 (m + uint64 (n + 1)) ≢ uint64 (m + n)
uint64_moves_right m n h = omega arith

module _ {C : Type 0} (ops : CacheOps C (Unit {0}))
    (laws : CacheLaws ops unavailable_offerings_ttl) where
  pub is_unavailable-mark_unavailable :
      (u : UnavailableOfferings C) (now later : ℕ) (type region : Text)
      → now ≤ later
      → later < now + unavailable_offerings_ttl
      → is_unavailable ops (mark_unavailable ops u now type region) later type region ≡ true
  unfolding is_unavailable mark_unavailable
  is_unavailable-mark_unavailable u now later type region le lt =
      rw (laws.get-set_self u.offering_cache now later (offering_key type region) tt le lt) refl

  pub seq_num-mark_unavailable :
      (u : UnavailableOfferings C) (now : ℕ) (type region : Text)
      → seq_num (mark_unavailable ops u now type region) type ≢ seq_num u type
  unfolding mark_unavailable seq_num bump
  seq_num-mark_unavailable u now type region =
      λ same. uint64_moves _ _ (rw (lookup-insert, text_eq_refl type) at same)

  -- Given the laws of the cache, an offering that is marked is unavailable for three minutes. The
  -- sequence number of its instance type changes, even when it wraps around, and that of another
  -- type does not.
  pub mark_unavailable_lem :
      (u : UnavailableOfferings C) (now later : ℕ) (type other_type region : Text)
      → now ≤ later
      → later < now + unavailable_offerings_ttl
      → text_eq type other_type ≡ false
      → (is_unavailable ops (mark_unavailable ops u now type region) later type region ≡ true)
        × (seq_num (mark_unavailable ops u now type region) type ≢ seq_num u type)
        × (seq_num (mark_unavailable ops u now type region) other_type ≡ seq_num u other_type)
  unfolding mark_unavailable seq_num bump
  mark_unavailable_lem u now later type other_type region le lt ne = (
    is_unavailable-mark_unavailable u now later type region le lt,
    seq_num-mark_unavailable u now type region,
    rw (lookup-insert, ne) refl,
  )

  -- Given the laws of the cache, a region that is marked is unavailable for every instance type for
  -- three minutes, and the sequence number of every type changes.
  pub mark_region_unavailable_lem :
      (u : UnavailableOfferings C) (now later : ℕ) (type region : Text)
      → now ≤ later
      → later < now + unavailable_offerings_ttl
      → (is_unavailable ops (mark_region_unavailable ops u now region) later type region ≡ true)
        × (seq_num (mark_region_unavailable ops u now region) type ≢ seq_num u type)
  unfolding is_unavailable mark_region_unavailable seq_num
  mark_region_unavailable_lem u now later type region le lt = (
    rw (laws.get-set_self u.region_cache now later region tt le lt) (ground arith),
    uint64_moves_right _ _,
  )
