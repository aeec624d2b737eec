-- ===== src/Tests/Caches.antt =====
-- The backoff on the small cache.
use karpenter_provider_linod.Base.{
  ◌+◌, ◌≡◌, refl, false, none, some, [], ◌∷◌, arith, leb, if◌then◌else◌, codes, text_eq, lookup,
}
use karpenter_provider_linod.Errors.{wrap}
use karpenter_provider_linod.Cache.{CacheOps, CacheLaws}
use karpenter_provider_linod.Backoff.{
  backoff_ttl, check, record_failure, clear, BackoffEntry, BackoffTracker,
}
use karpenter_provider_linod.Tests.World.{missing, busy}
use karpenter_provider_linod.Cache.Sample.{Sample, sample_cache, sample_cache-CacheLaws}
use karpenter_provider_linod.Backoff.Laws.{
  delay_after, record_failures, check-record_failures, check_frame,
}

abbrev ops : CacheOps (Sample BackoffEntry) BackoffEntry
ops = sample_cache BackoffEntry backoff_ttl

abbrev laws : CacheLaws ops backoff_ttl
laws = sample_cache-CacheLaws BackoffEntry backoff_ttl

abbrev fresh : BackoffTracker (Sample BackoffEntry)
fresh = record { entries = []; base = 10; max_delay = 35 }

no_entry : ops.get fresh.entries 5 (codes "70") ≡ none
unfolding lookup
no_entry = refl

-- three failures, the third 30 later than the first
check-record_failures_example :
    check ops
      (record_failures ops fresh (codes "70") ((5, busy) ∷ (20, missing) ∷ (35, busy) ∷ []))
      60
      (codes "70")
    ≡ (if leb (35 + delay_after 10 35 2) 60 then none else some (wrap busy))
check-record_failures_example =
    check-record_failures ops laws fresh (codes "70") 5 60 busy ((20, missing) ∷ (35, busy) ∷ [])
      (omega arith) no_entry (omega arith, omega arith, (omega arith, omega arith, tt))
      (omega arith) (omega arith)

other_key : text_eq (codes "70") (codes "71") ≡ false
unfolding text_eq
other_key = refl

check_frame_example :
    (check ops (record_failure ops fresh 5 (codes "70") busy) 6 (codes "71")
      ≡ check ops fresh 6 (codes "71"))
    × (check ops (clear ops fresh (codes "70")) 6 (codes "71") ≡ check ops fresh 6 (codes "71"))
    × (check ops (clear ops fresh (codes "70")) 6 (codes "70") ≡ none)
check_frame_example = check_frame ops laws fresh 5 6 (codes "70") (codes "71") busy other_key
