-- ===== src/Cache/Sample.antt =====
-- A cache that meets the laws: an association list of values with their times of expiry.
use karpenter_provider_linod.Base.{
  ℕ, ◌≡◌, ◌⊎◌, inl, inr, Bool-cases, ◌+◌, refl, Bool, true, false, Option, none, some, [], arith,
  ltb, if◌then◌else◌, text_eq_refl, Dict, lookup, insert, delete, lookup-insert, lookup-delete,
}
use karpenter_provider_linod.Cache.{CacheOps, CacheLaws}

abbrev pub Sample : Type 0 → Type 0
Sample V = Dict (ℕ × V)

abbrev unexpired : {V : Type 0} → ℕ → Option (ℕ × V) → Option V
unexpired now none = none
unexpired now (some (until, v)) = if ltb now until then some v else none

abbrev present : {V : Type 0} → Option (ℕ × V) → Bool
present none = false
present (some _) = true

abbrev pub sample_cache : (V : Type 0) → ℕ → CacheOps (Sample V) V
sample_cache V ttl = record {
  get = λ c now k. unexpired now (lookup k c);
  set_default = λ c now k v. insert k (now + ttl, v) c;
  delete_key = λ c k. delete k c;
  flush = λ c. [];
  has_item = λ c k. present (lookup k c);
}

kept_or_expired :
    {V : Type 0} (now until : ℕ) (v : V)
    → (unexpired now (some (until, v)) ≡ none) ⊎ (unexpired now (some (until, v)) ≡ some v)
kept_or_expired now until v = elim (Bool-cases (ltb now until)) [
  | inl early ↦ inr (rw early refl)
  | inr late ↦ inl (rw late refl)
]

pub sample_cache-CacheLaws : (V : Type 0) (ttl : ℕ) → CacheLaws (sample_cache V ttl) ttl
sample_cache-CacheLaws V ttl = record {
  get-set_self =
      λ c now later k v le lt. ground (arith, lookup-insert k k (now + ttl, v) c, text_eq_refl k);
  get-set_only =
      λ c now later k v. rw (lookup-insert, text_eq_refl k) (kept_or_expired later (now + ttl) v);
  get-set_ne = λ c now later j k v ne. rw (lookup-insert, ne);
  get-delete = λ c now j k. ground (arith, lookup-delete j k c);
  get-flush = λ c now j. unfold lookup in refl;
  get-has_item = λ c now k h. ground arith;
}
