-- ===== src/Lke/Claims.antt =====
-- Instances: finding one of a pool that no node claim has, and claiming it by its tags.
pub mod Verified
pub mod Answered
pub mod TagSet
pub mod Ends
use karpenter_provider_linod.Base.{
  ℕ, zero, suc, ◌+◌, Bool, true, false, not, ◌||◌, Option, none, some, List, [], ◌∷◌, ◌++◌, ltb,
  if◌then◌else◌, Text, codes, text_eq, contains, assign, sort, ℤ, pos, int_eq, itoa, Dict,
}
use karpenter_provider_linod.Errors.{
  is_not_found, is_retryable_error, Err, nodes_provisioning, no_claimable_instance, message,
  sentinel, wrap,
}
use karpenter_provider_linod.Tags.{tag_list_to_map, map_to_tag_list, dedupe_tags, opaque_tags}
use karpenter_provider_linod.Tags.Claim.{
  node_claim_tag_key, normalize_node_claim_tag_value, node_claim_tag,
}
use karpenter_provider_linod.Objects.{
  label_lke_managed, NodeClaim, NodeClass, LinodeInstance, PoolNode, NodePool,
}
use karpenter_provider_linod.Lke.State.{
  Exec, pure, raise, attempt, wrapped, request, sleep_for, Result, Env, Provider, ok, err,
  list_instances, get_instance, update_instance, get_node_pool, fail, running, ◌>>=◌, ◌>>◌,
}
use karpenter_provider_linod.Lke.Pools.{has_key, is_enterprise}

-- the instance has a NodeClaim tag
unfoldable pub is_claimed : List Text → Bool
unfolding has_key tag_list_to_map
is_claimed tags = has_key node_claim_tag_key (tag_list_to_map tags)

-- newTags of claimInstance
unfoldable pub merged_tags : List Text → List Text → List Text → Text → Dict Text
unfolding tag_list_to_map
merged_tags instance_tags pool_tags class_tags name =
    assign
      (assign (assign (tag_list_to_map instance_tags) (tag_list_to_map pool_tags))
        (tag_list_to_map class_tags))
      ((node_claim_tag_key, normalize_node_claim_tag_value name) ∷ [])

-- the tags of claimInstance: the maps of tags merged, then the opaque ones
unfoldable pub claim_tags : List Text → List Text → List Text → Text → List Text
unfolding merged_tags map_to_tag_list opaque_tags dedupe_tags
claim_tags instance_tags pool_tags class_tags name = sort (
    dedupe_tags (
      (map_to_tag_list (merged_tags instance_tags pool_tags class_tags name)
        ++ opaque_tags instance_tags)
      ++ opaque_tags class_tags))

-- the loop of findClaimableInstanceEnterprise
unfoldable pub first_unclaimed : Text → List LinodeInstance → Option LinodeInstance
unfolding is_claimed
first_unclaimed type [] = none
first_unclaimed type (i ∷ is) =
    if not (text_eq i.type type)
    then first_unclaimed type is
    else if is_claimed i.tags
    then first_unclaimed type is
    else some i

module _ (e : Env) (p : Provider) where
  unfoldable pub judge_node : Result LinodeInstance → Exec e LinodeInstance → Exec e LinodeInstance
  judge_node (err x) rest = if is_not_found x then rest else raise (wrap x)
  judge_node (ok i) rest = if is_claimed i.tags then rest else pure i

  -- the loop of findClaimableInstanceStandard
  unfoldable pub scan_nodes : Bool → List PoolNode → Exec e LinodeInstance
  scan_nodes provisioning [] =
      raise (sentinel (if provisioning then nodes_provisioning else no_claimable_instance))
  scan_nodes provisioning (node ∷ nodes) =
      let waiting = scan_nodes true nodes in
      let rest = scan_nodes provisioning nodes in
      if int_eq node.instance_id (pos 0) then waiting else do
        found ←
            attempt (request (get_instance node.instance_id) (e.api.get_instance node.instance_id))
        judge_node found rest

  unfoldable pub find_claimable_instance_standard : NodePool → Exec e LinodeInstance
  find_claimable_instance_standard pool = do
    fresh ← wrapped (request (get_node_pool pool.id) (e.api.get_node_pool p.cluster_id pool.id))
    scan_nodes false fresh.linodes

  -- the tags that an enterprise instance of the pool has
  abbrev enterprise_filter : NodePool → List Text
  enterprise_filter pool =
      (codes "nodepool=" ++ itoa pool.id)
      ∷ (codes "lke" ++ itoa p.cluster_id)
      ∷ (label_lke_managed ++ codes "=true")
      ∷ []

  unfoldable pub pick_unclaimed : Option LinodeInstance → Exec e LinodeInstance
  pick_unclaimed none = raise (sentinel no_claimable_instance)
  pick_unclaimed (some i) = pure i

  unfoldable pub find_claimable_instance_enterprise : NodePool → Exec e LinodeInstance
  find_claimable_instance_enterprise pool = do
    let filter = enterprise_filter pool
    instances ← wrapped (request (list_instances filter) (e.api.list_instances filter))
    pick_unclaimed (first_unclaimed pool.type instances)

  -- findClaimableInstance
  unfoldable pub find_claimable_instance : NodePool → Exec e LinodeInstance
  find_claimable_instance pool =
      if is_enterprise p.cluster_tier
      then find_claimable_instance_enterprise pool
      else find_claimable_instance_standard pool

  unfoldable pub judge_verified :
      Text → Result LinodeInstance → Exec e LinodeInstance → Exec e LinodeInstance
  judge_verified expected (err x) again =
      if is_retryable_error x || is_not_found x
      then (do sleep_for e p.retry_delay; again)
      else raise (wrap x)
  judge_verified expected (ok i) again =
      if contains expected i.tags then pure i else do sleep_for e p.retry_delay; again

  unfoldable pub verify_round :
      ℤ → Text → Exec e LinodeInstance → Option Err → Exec e LinodeInstance
  verify_round id expected again (some cancelled) = raise cancelled
  verify_round id expected again none = do
    found ← attempt (request (get_instance id) (e.api.get_instance id))
    judge_verified expected found again

  -- the loop of verifyTagsApplied, in at most `fuel` rounds
  unfoldable pub verify_loop : ℕ → ℕ → ℤ → Text → Exec e LinodeInstance
  verify_loop zero deadline id expected s = (running, s)
  verify_loop (suc fuel) deadline id expected s =
      let round = verify_round id expected (verify_loop fuel deadline id expected) in
      if ltb (e.now s.world) deadline then round (e.ctx_err s.world) s else (fail message, s)

  -- verifyTagsApplied
  unfoldable pub verify_tags_applied : ℕ → ℤ → Text → Exec e LinodeInstance
  verify_tags_applied fuel id name s =
      verify_loop fuel (e.now s.world + p.tag_verification_timeout) id (node_claim_tag name) s

  -- claimInstance
  unfoldable pub claim_instance :
      ℕ → LinodeInstance → NodeClaim → NodeClass → NodePool → Exec e LinodeInstance
  claim_instance fuel i node_claim node_class pool = do
    let tags = claim_tags i.tags pool.tags node_class.tags node_claim.name
    wrapped (request (update_instance i.id tags) (e.api.update_instance i.id tags))
    verify_tags_applied fuel i.id node_claim.name
