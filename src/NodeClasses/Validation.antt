-- ===== src/NodeClasses/Validation.antt =====
-- The validation reconciler of pkg/controllers/nodeclass/validation.go.
use karpenter_provider_linod.Base.{
  ℕ, Bool, false, Option, none, some, List, [], ◌∷◌, ◌++◌, if◌then◌else◌, Text, text_eq, Dict, ℤ,
  pos, int_eq,
}
use karpenter_provider_linod.Objects.{NodeClaim, Tier}
use karpenter_provider_linod.Cache.{CacheOps}
use karpenter_provider_linod.Offerings.{split_key}
use karpenter_provider_linod.Tags.Cluster.{get_tags, get_tags_for_lke}
use karpenter_provider_linod.NodeClasses.Checks.{
  requeue_after_time, set_false, set_true, validate_class_tags, validate_lke_unsupported_fields,
  validate_instance_unsupported_fields, judge_tier, Mode, Verified, Check, lke_mode, passes, stops,
  stops_with,
}
use karpenter_provider_linod.NodeClasses.Types.{ConditionReason, LinodeNodeClass}
use karpenter_provider_linod.Lke.State.{Result, ok}

-- The LKE API, the cache of verdicts and the hash that the reconciler uses; a verdict in the cache is a
-- reason, `none` for the empty text.
pub record Validator : Type 1 where
  pub World : Type 0
  -- linodeClient.GetLKECluster: the tier and the version
  pub get_lke_cluster : ℤ → World → Result (Tier × Text) × World
  pub now : World → ℕ
  pub VerdictCache : Type 0
  pub verdict_ops : CacheOps VerdictCache (Option ConditionReason)
  -- the keys of cache.Items()
  pub keys : VerdictCache → List Text
  -- hashstructure.Hash of the spec, the annotations and the tags, as sixteen hexadecimal digits
  pub class_tags_hash : LinodeNodeClass → Dict Text → Text
  pub cluster_id : ℤ
  pub cluster_name : Text
  pub mode : Mode
  pub dry_run_disabled : Bool

module _ (v : Validator) where
  -- the world and the cache
  pub record ValidationState : Type 0 where
    pub world : v.World
    pub cache : v.VerdictCache

  abbrev ask_tier : Text → LinodeNodeClass → ValidationState → Check × ValidationState
  ask_tier desired node_class s =
      let (answer, w) = v.get_lke_cluster v.cluster_id s.world in
      if int_eq v.cluster_id (pos 0)
      then (stops_with node_class, s)
      else (judge_tier desired node_class answer, record s { world = w })

  abbrev pub tier_of_version :
      Mode → Option Text → LinodeNodeClass → ValidationState → Check × ValidationState
  tier_of_version lke_mode (some desired) node_class s = ask_tier desired node_class s
  tier_of_version _ _ node_class s = (passes, s)

  -- validateLKEClusterTier
  unfoldable pub validate_lke_cluster_tier :
      LinodeNodeClass → ValidationState → Check × ValidationState
  unfolding judge_tier int_eq
  validate_lke_cluster_tier node_class s =
      tier_of_version v.mode node_class.meta.lke_k8s_version node_class s

  -- cacheKey
  unfoldable pub verdict_key : LinodeNodeClass → Dict Text → Text
  verdict_key node_class tags = node_class.meta.name ++ b':' ∷ v.class_tags_hash node_class tags

  abbrev pub accepted : LinodeNodeClass → Verified
  accepted node_class = record { answer = ok requeue_after_time; node_class = set_true node_class }

  -- the end of Reconcile, on the cached verdict; both values of dryRunDisabled do the same
  unfoldable pub conclude :
      Option (Option ConditionReason)
      → LinodeNodeClass
      → Dict Text
      → ValidationState
      → Verified × ValidationState
  unfolding verdict_key
  conclude (some none) node_class tags s = (accepted node_class, s)
  conclude (some (some reason)) node_class tags s =
      (record { answer = ok requeue_after_time; node_class = set_false reason node_class }, s)
  conclude none node_class tags s = (
    accepted node_class,
    record s {
      cache = v.verdict_ops.set_default s.cache (v.now s.world) (verdict_key node_class tags) none;
    },
  )

  -- an empty node claim that refers to the node class
  abbrev claim_of : LinodeNodeClass → NodeClaim
  claim_of node_class = record {
    name = [];
    labels = [];
    annotations = [];
    taints = [];
    node_class_ref = some node_class.meta.name;
    provider_id = [];
    node_name = [];
    deleted = false;
  }

  abbrev tags_by : Mode → LinodeNodeClass → Dict Text
  tags_by lke_mode node_class =
      get_tags_for_lke node_class.meta (claim_of node_class) v.cluster_name
  tags_by _ node_class = get_tags node_class.meta (claim_of node_class) v.cluster_name

  -- the tags of Reconcile
  unfoldable pub generated_tags : LinodeNodeClass → Dict Text
  unfolding get_tags get_tags_for_lke
  generated_tags node_class = tags_by v.mode node_class

  abbrev pub finish :
      LinodeNodeClass → Dict Text → Check × ValidationState → Verified × ValidationState
  finish node_class tags (stops verified, s) = (verified, s)
  finish node_class tags (passes, s) =
      conclude (v.verdict_ops.get s.cache (v.now s.world) (verdict_key node_class tags)) node_class
        tags s

  abbrev pub or_stop :
      Check
      → (ValidationState → Verified × ValidationState)
      → ValidationState
      → Verified × ValidationState
  or_stop passes rest s = rest s
  or_stop (stops verified) rest s = (verified, s)

  -- Reconcile
  unfoldable pub validate : LinodeNodeClass → ValidationState → Verified × ValidationState
  unfolding generated_tags validate_class_tags validate_lke_unsupported_fields
      validate_instance_unsupported_fields validate_lke_cluster_tier conclude
  validate node_class = or_stop (validate_class_tags node_class (generated_tags node_class)) (
      or_stop (validate_lke_unsupported_fields v.mode node_class) (
        or_stop (validate_instance_unsupported_fields v.mode node_class) (λ s.
          finish node_class (generated_tags node_class) (validate_lke_cluster_tier node_class s))))

  -- the name before the hash, if the key has the two parts
  abbrev name_of_key : List Text → Option Text
  name_of_key (name ∷ hash ∷ []) = some name
  name_of_key _ = none

  abbrev is_named : Text → Option Text → Bool
  is_named name none = false
  is_named name (some other_name) = text_eq other_name name

  unfoldable pub delete_named : Text → List Text → v.VerdictCache → v.VerdictCache
  unfolding split_key text_eq
  delete_named name [] cache = cache
  delete_named name (key ∷ keys) cache = delete_named name keys (
      if is_named name (name_of_key (split_key key))
      then v.verdict_ops.delete_key cache key
      else cache)

  -- clearCacheEntries
  unfoldable pub clear_cache_entries : LinodeNodeClass → v.VerdictCache → v.VerdictCache
  unfolding delete_named
  clear_cache_entries node_class cache = delete_named node_class.meta.name (v.keys cache) cache
