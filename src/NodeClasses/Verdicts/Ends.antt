-- ===== src/NodeClasses/Verdicts/Ends.antt =====
-- How the validation of a node class ends.
use karpenter_provider_linod.Base.{
  ◌≡◌, ◌⊎◌, Bool, true, false, not, ◌&&◌, Option, none, some, Text, text_eq, pos, int_eq,
}
use karpenter_provider_linod.Errors.{Err}
use karpenter_provider_linod.Objects.{Tier, standard, enterprise, unknown_tier}
use karpenter_provider_linod.NodeClasses.Types.{
  ConditionReason, LinodeNodeClass, lke_version_unsupported, lke_version_mismatch,
}
use karpenter_provider_linod.NodeClasses.Checks.{
  requeue_after_time, lke_tier_requeue_after_time, set_false, Mode, Verified, Check, lke_mode,
  instance_mode, other_mode, passes, stops,
}
use karpenter_provider_linod.NodeClasses.Validation.{
  verdict_key, accepted, generated_tags, Validator, ValidationState,
}
use karpenter_provider_linod.Lke.State.{Result, ok, err}

-- the cluster is an enterprise one whose control plane is on the version
abbrev pub cluster_fits : Text → Result (Tier × Text) → Bool
cluster_fits desired (ok (enterprise, version)) = text_eq version desired
cluster_fits desired (ok (standard, version)) = false
cluster_fits desired (ok (unknown_tier tier, version)) = false
cluster_fits desired (err x) = false

-- the node class is left as it is with an error, or its condition is false and it is looked at again
-- after the shorter time
abbrev pub Refused : LinodeNodeClass → Verified → Type 0
Refused node_class refused =
    ((x : Err) × (refused ≡ record { answer = err x; node_class = node_class }))
    ⊎ ((reason : ConditionReason) × ((reason ≡ lke_version_unsupported)
          ⊎ (reason ≡ lke_version_mismatch))
        × (refused ≡ record {
          answer = ok lke_tier_requeue_after_time;
          node_class = set_false reason node_class;
        }))

module _ (v : Validator) where
  -- in LKE mode a node class with a version needs the ID of the cluster and a cluster that fits
  abbrev pub tier_fits : Mode → Option Text → v.World → Bool
  tier_fits lke_mode (some desired) w =
      not (int_eq v.cluster_id (pos 0)) && cluster_fits desired (v.get_lke_cluster v.cluster_id w).0
  tier_fits lke_mode none w = true
  tier_fits instance_mode version w = true
  tier_fits other_mode version w = true

  abbrev TierOutcome :
      Bool → LinodeNodeClass → ValidationState v → Check × ValidationState v → Type 0
  TierOutcome fitting node_class s r =
      (r.1.cache ≡ s.cache)
      × (((fitting ≡ true) × (r.0 ≡ passes))
          ⊎ ((fitting ≡ false)
              × ((refused : Verified) × (r.0 ≡ stops refused) × Refused node_class refused)))

  abbrev failed_by : Option (Option ConditionReason) → Option ConditionReason
  failed_by none = none
  failed_by (some verdict) = verdict

  -- the reason of a failure that is in the cache for the node class and its tags
  abbrev pub cached_failure : LinodeNodeClass → ValidationState v → Option ConditionReason
  cached_failure node_class s = failed_by (
      v.verdict_ops.get s.cache (v.now s.world)
        (verdict_key v node_class (generated_tags v node_class)))

  -- the condition is false for the reason, or true if there is none
  abbrev pub verdict_of : Option ConditionReason → LinodeNodeClass → Verified
  verdict_of none node_class = accepted v node_class
  verdict_of (some reason) node_class = record {
    answer = ok requeue_after_time;
    node_class = set_false reason node_class;
  }
