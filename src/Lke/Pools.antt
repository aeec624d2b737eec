-- ===== src/Lke/Pools.antt =====
-- Node pools: which pools the provider owns, finding or creating the pool of a node claim, its
-- version, and the capacity check before a pool is scaled.
pub mod Labels
use karpenter_provider_linod.Base.{
  Bool, true, false, not, ◌&&◌, Option, none, some, List, [], ◌∷◌, ◌++◌, if◌then◌else◌, Text, codes,
  text_eq, Dict, lookup, itoa, has_prefix,
}
use karpenter_provider_linod.Errors.{
  errors_as, as_linode, err_has_status, ApiReason, ApiError, Err, http, message, wrap,
  insufficient_capacity,
}
use karpenter_provider_linod.Tags.{tag_list_to_map, map_to_tag_list, dedupe_tags}
use karpenter_provider_linod.Objects.{
  node_pool_label_key, label_lke_managed, label_topology_zone, at, Taint, NodeClaim, NodeClass,
  NodePool, PoolCreateOptions, RegionAvailability, Tier, on_recycle, enterprise, PoolUpdateOptions,
}
use karpenter_provider_linod.Offerings.{mark_unavailable}
use karpenter_provider_linod.Lke.State.{
  Exec, pure, raise, attempt, wrapped, request, modify, drop_node, Result, Env, Provider, ok, err,
  get_region_availability, list_node_pools, create_node_pool, update_node_pool, ◌>>=◌, ◌>>◌,
}

-- makePoolKey
unfoldable pub make_pool_key : Text → Text → Text
make_pool_key node_pool_name instance_type = node_pool_name ++ b'|' ∷ instance_type

unfoldable pub has_key : Text → Dict Text → Bool
unfolding lookup
has_key k m = elim (lookup k m) [ none ↦ false | some _ ↦ true ]

-- isKarpenterManagedPool
unfoldable pub is_karpenter_managed_pool : NodePool → Bool
unfolding has_key tag_list_to_map
is_karpenter_managed_pool pool =
    let tags = tag_list_to_map pool.tags in
    has_key node_pool_label_key tags && has_key label_lke_managed tags

-- matchesPoolKey
unfoldable pub matches_pool_key : NodePool → Text → Text → Bool
unfolding is_karpenter_managed_pool at tag_list_to_map
matches_pool_key pool instance_type node_pool_name =
    if not (text_eq pool.type instance_type)
    then false
    else if not (is_karpenter_managed_pool pool)
    then false
    else text_eq (at (tag_list_to_map pool.tags) node_pool_label_key) node_pool_name

-- the loop of findOrCreatePool over the pools of the cluster
unfoldable pub first_match : Text → Text → List NodePool → Option NodePool
unfolding matches_pool_key
first_match instance_type node_pool_name [] = none
first_match instance_type node_pool_name (pool ∷ pools) =
    if matches_pool_key pool instance_type node_pool_name
    then some pool
    else first_match instance_type node_pool_name pools

-- lkeLabelsFromNodeClaim; a nil map has no entries
unfoldable pub lke_labels_from_node_claim : Dict Text → Dict Text
lke_labels_from_node_claim [] = []
lke_labels_from_node_claim ((key, value) ∷ labels) =
    let rest = lke_labels_from_node_claim labels in
    if text_eq key label_topology_zone then rest else (key, value) ∷ rest

-- convertToLkeTaints
unfoldable pub convert_to_lke_taints : List Taint → List Taint
convert_to_lke_taints [] = []
convert_to_lke_taints (t ∷ taints) =
    record { key = t.key; value = t.value; effect = t.effect } ∷ convert_to_lke_taints taints

-- fmt.Sprintf(lkePlanUnavailableReasonFormat, instanceType)
abbrev plan_unavailable_reason : Text → Text
plan_unavailable_reason instance_type =
    codes "The Linode plan "
    ++ instance_type
    ++ codes " is not currently available in the selected region"

abbrev names_plan : Text → Option (List ApiReason) → Bool
names_plan instance_type (some (r ∷ [])) =
    text_eq r.field (codes "type") && has_prefix r.reason (plan_unavailable_reason instance_type)
names_plan instance_type _ = false

abbrev error_names_plan : Text → Option ApiError → Bool
error_names_plan instance_type none = false
error_names_plan instance_type (some e) = names_plan instance_type e.reasons

-- isPlanUnavailableError
unfoldable pub is_plan_unavailable_error : Err → Text → Bool
unfolding err_has_status errors_as
is_plan_unavailable_error e instance_type =
    if not (err_has_status e (http 400 ∷ []))
    then false
    else error_names_plan instance_type (errors_as as_linode e)

-- the loop of checkPlanAvailability: the first entry of the plan decides
unfoldable pub plan_available : Text → List RegionAvailability → Bool
plan_available instance_type [] = false
plan_available instance_type (a ∷ as') =
    if text_eq a.plan instance_type then a.available else plan_available instance_type as'

abbrev pub is_enterprise : Tier → Bool
is_enterprise enterprise = true
is_enterprise _ = false

abbrev pub same_version : Option Text → Text → Bool
same_version none wanted = false
same_version (some v) wanted = text_eq v wanted

module _ (e : Env) (p : Provider) where
  -- p.unavailableOfferings.MarkUnavailable(ctx, …, instanceType, p.region)
  unfoldable pub mark_plan : Text → Exec e (Unit {0})
  mark_plan instance_type = modify λ s. record s {
    unavailable_offerings =
        mark_unavailable e.offering_ops s.unavailable_offerings (e.now s.world) instance_type
          p.region;
  }

  unfoldable pub judge_availability : Text → Result (List RegionAvailability) → Exec e (Unit {0})
  judge_availability instance_type (err x) = pure tt
  judge_availability instance_type (ok availability) =
      if plan_available instance_type availability
      then pure tt
      else do mark_plan instance_type; raise (insufficient_capacity message)

  -- checkPlanAvailability: a failed lookup lets the scaling go on
  unfoldable pub check_plan_availability : Text → Exec e (Unit {0})
  check_plan_availability instance_type = do
    found ←
        attempt
          (request (get_region_availability p.region) (e.api.get_region_availability p.region))
    judge_availability instance_type found

  unfoldable pub reconcile_to : Text → NodePool → Exec e (Unit {0})
  reconcile_to wanted pool = if same_version pool.k8s_version wanted then pure tt else do
    let options : PoolUpdateOptions = record {
      count = none;
      k8s_version = some wanted;
      update_strategy = some on_recycle;
    }
    wrapped (
        request (update_node_pool pool.id options)
          (e.api.update_node_pool p.cluster_id pool.id options))
    drop_node e (itoa p.cluster_id ++ b'-' ∷ itoa pool.id)

  unfoldable pub reconcile_wanted : NodePool → Option Text → Exec e (Unit {0})
  reconcile_wanted pool none = pure tt
  reconcile_wanted pool (some wanted) = reconcile_to wanted pool

  -- reconcilePoolVersion
  unfoldable pub reconcile_pool_version : NodeClass → NodePool → Exec e (Unit {0})
  reconcile_pool_version node_class pool = reconcile_wanted pool node_class.lke_k8s_version

  -- the options of findOrCreatePool's second step
  unfoldable pub create_options : NodeClass → NodeClaim → Dict Text → Text → PoolCreateOptions
  create_options node_class node_claim tags instance_type = record {
    count = 1;
    type = instance_type;
    tags = dedupe_tags (map_to_tag_list tags);
    labels = lke_labels_from_node_claim node_claim.labels;
    taints = convert_to_lke_taints node_claim.taints;
    k8s_version = node_class.lke_k8s_version;
    update_strategy = if is_enterprise p.cluster_tier then some on_recycle else none;
  }

  unfoldable pub judge_created : Text → Result NodePool → Exec e NodePool
  judge_created instance_type (ok pool) = do modify λ s. record s { created_pool = true }; pure pool
  judge_created instance_type (err x) =
      if is_plan_unavailable_error (wrap x) instance_type
      then (do mark_plan instance_type; raise (insufficient_capacity (wrap (wrap x))))
      else raise (wrap x)

  unfoldable pub create_pool : NodeClass → NodeClaim → Dict Text → Text → Exec e NodePool
  create_pool node_class node_claim tags instance_type = do
    let options = create_options node_class node_claim tags instance_type
    created ←
        attempt (request (create_node_pool options) (e.api.create_node_pool p.cluster_id options))
    judge_created instance_type created

  unfoldable pub use_or_create :
      NodeClass → NodeClaim → Dict Text → Text → Option NodePool → Exec e NodePool
  use_or_create node_class node_claim tags instance_type (some pool) = do
    reconcile_pool_version node_class pool
    pure pool
  use_or_create node_class node_claim tags instance_type none =
      create_pool node_class node_claim tags instance_type

  -- p.client.ListLKENodePools(ctx, p.clusterID, nil)
  abbrev pub list_pools : Exec e (List NodePool)
  list_pools = request list_node_pools (e.api.list_node_pools p.cluster_id)

  -- findOrCreatePool
  unfoldable pub find_or_create_pool : NodeClass → NodeClaim → Dict Text → Text → Exec e NodePool
  find_or_create_pool node_class node_claim tags instance_type = do
    pools ← wrapped list_pools
    use_or_create node_class node_claim tags instance_type
        (first_match instance_type (at node_claim.labels node_pool_label_key) pools)
