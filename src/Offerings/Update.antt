-- ===== src/Offerings/Update.antt =====
-- UpdateUnavailableOfferingsCache of pkg/utils/utils.go: what the error of a creation says of offerings.
use karpenter_provider_linod.Base.{ℕ, Option, none, some, List, [], ◌∷◌, if◌then◌else◌, Text}
use karpenter_provider_linod.Errors.{err_has_status, Code, Err, http}
use karpenter_provider_linod.Cache.{CacheOps}
use karpenter_provider_linod.Offerings.{
  mark_unavailable, mark_region_unavailable, UnavailableOfferings,
}

abbrev pub region_codes : List Code
region_codes = http 502 ∷ http 504 ∷ http 500 ∷ http 503 ∷ []

module _ {C : Type 0} (ops : CacheOps C (Unit {0})) where
  -- `none` is a nil error
  unfoldable pub update_unavailable_offerings_cache :
      Option Err → Text → Text → ℕ → UnavailableOfferings C → UnavailableOfferings C
  unfolding err_has_status mark_unavailable mark_region_unavailable
  update_unavailable_offerings_cache none region instance_type now u = u
  update_unavailable_offerings_cache (some x) region instance_type now u =
      if err_has_status x (http 400 ∷ [])
      then mark_unavailable ops u now instance_type region
      else if err_has_status x region_codes
      then mark_region_unavailable ops u now region
      else u
