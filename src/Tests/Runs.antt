-- ===== src/Tests/Runs.antt =====
-- Create, Delete and the claim of an instance on the small cluster.
use karpenter_provider_linod.Base.{
  ◌+◌, ◌≤◌, ◌≡◌, refl, true, false, none, List, [], ◌∷◌, Text, codes, contains, pos, text_eq,
  lookup, int_eq, atoi, arith, text_le, insert, assign, sort, ◌≢◌,
}
use karpenter_provider_linod.Errors.{
  wrap, is_not_found, is_node_claim_not_found, is_retryable_error,
}
use karpenter_provider_linod.Tags.Claim.{node_claim_tag, normalize_node_claim_tag_value}
use karpenter_provider_linod.Objects.{LinodeInstance, NodePool}
use karpenter_provider_linod.Backoff.{backoff_ttl, check, new_backoff_tracker, record_failure}
use karpenter_provider_linod.Lke.State.{
  list_node_pools, update_instance, ok, called, fail, State, Outcome, done, running,
}
use karpenter_provider_linod.Lke.Claims.{
  is_claimed, claim_tags, judge_node, scan_nodes, find_claimable_instance_standard,
  find_claimable_instance, judge_verified, verify_round, verify_loop, verify_tags_applied,
  claim_instance,
}
use karpenter_provider_linod.Lke.Create.{create}
use karpenter_provider_linod.Lke.Delete.{
  delete_locked, delete_by_id, find_pool_of, judge_pools, find_lke_node_pool, judge_lookup,
  find_or_forget, judge_deleted, remove_node, remove_from, delete_instance, delete_parsed,
  delete_node, record_delete_result, unless_failed_recently,
}
use karpenter_provider_linod.Lke.Pools.{is_karpenter_managed_pool}
use karpenter_provider_linod.Tags.{split_tag, tag_list_to_map}
use karpenter_provider_linod.Tests.World.{
  busy, cluster_api, cluster, provider, claim, node_class, web_tags, node, web_pool, machine,
  two_nodes,
}
use karpenter_provider_linod.Lke.Create.Scaling.{scalings, create-scalings}
use karpenter_provider_linod.Lke.Locks.{Locked}
use karpenter_provider_linod.Lke.Locks.Create.{ClaimKey, create-Locked}
use karpenter_provider_linod.Lke.Locks.Delete.{InstanceKey, delete_by_id-Locked}
use karpenter_provider_linod.Lke.Delete.Safety.{delete_locked-DeleteEvents, DeleteEvents}
use karpenter_provider_linod.Lke.Delete.Again.{delete_by_id-again, hold}
use karpenter_provider_linod.Lke.Claims.Ends.{verify_tags_applied-ends, ClockLaws}
use karpenter_provider_linod.Lke.Claims.Verified.{find_claimable_instance-unclaimed}
use karpenter_provider_linod.Lke.Claims.Answered.{Confirmed, claim_instance-tagged}
use karpenter_provider_linod.Cache.Sample.{sample_cache-CacheLaws}

abbrev types : List Text
types = codes "g6-standard-2" ∷ []

create-scalings_example :
    scalings (create cluster provider 3 node_class claim web_tags types two_nodes).1.events
    ≤ scalings two_nodes.events + 1
create-scalings_example =
    create-scalings cluster provider 3 node_class claim web_tags types two_nodes

create-Locked_example :
    Locked
      (ClaimKey cluster provider claim types two_nodes)
      two_nodes.events
      none
      (create cluster provider 3 node_class claim web_tags types two_nodes).1.events
create-Locked_example = create-Locked cluster provider node_class claim web_tags 3 types two_nodes

delete_by_id-Locked_example :
    Locked
      (InstanceKey cluster provider (codes "70") two_nodes)
      two_nodes.events
      none
      (delete_by_id cluster provider (codes "70") two_nodes).1.events
delete_by_id-Locked_example = delete_by_id-Locked cluster provider (codes "70") two_nodes

delete_locked-DeleteEvents_example :
    DeleteEvents
      (pos 70)
      (cluster_api.list_node_pools (pos 5) two_nodes.world).0
      (called list_node_pools true ∷ [])
      (delete_locked cluster provider (codes "70") (pos 70) two_nodes).1.events
delete_locked-DeleteEvents_example =
    delete_locked-DeleteEvents cluster provider (codes "70") (pos 70) two_nodes

abbrev pool : NodePool
pool = web_pool (node (pos 70) ∷ node (pos 71) ∷ [])

found_first : (find_claimable_instance cluster provider pool two_nodes).0 ≡ done (machine (pos 70))
unfolding find_claimable_instance find_claimable_instance_standard scan_nodes judge_node is_claimed
    int_eq contains
found_first = refl

find_claimable_instance-unclaimed_example : is_claimed (machine (pos 70)).tags ≡ false
find_claimable_instance-unclaimed_example =
    find_claimable_instance-unclaimed cluster provider pool two_nodes (machine (pos 70)) found_first

abbrev claimed_tags : List Text
claimed_tags = claim_tags [] pool.tags node_class.tags (codes "web-1")

claimed_first :
    (claim_instance cluster provider 3 (machine (pos 70)) claim node_class pool two_nodes).0
    ≡ done (record (machine (pos 70)) {
      tags = claim_tags [] pool.tags node_class.tags (codes "web-1");
    })
unfolding claim_instance verify_tags_applied verify_loop verify_round judge_verified claim_tags
    int_eq contains text_eq sort assign insert split_tag text_le node_claim_tag
    normalize_node_claim_tag_value
claimed_first = refl

claim_instance-tagged_example :
    ((written : LinodeInstance) × ((cluster_api.update_instance
          (pos 70)
          claimed_tags
          two_nodes.world).0
        ≡ ok written))
    × Confirmed
        (pos 70)
        (node_claim_tag (codes "web-1"))
        (called (update_instance (pos 70) claimed_tags) true ∷ two_nodes.events)
        (record (machine (pos 70)) { tags = claimed_tags })
        (claim_instance cluster provider 3 (machine (pos 70)) claim node_class pool two_nodes).1
claim_instance-tagged_example =
    claim_instance-tagged cluster provider 3 (machine (pos 70)) claim node_class pool two_nodes
      (record (machine (pos 70)) { tags = claim_tags [] pool.tags node_class.tags (codes "web-1") })
      claimed_first

not_held : check cluster.backoff_ops two_nodes.delete_backoff 0 (codes "70") ≡ none
unfolding check lookup new_backoff_tracker
not_held = refl

-- the removal of one node fails with 503
abbrev after_delete : Outcome (Unit {0}) × State cluster
after_delete = delete_node cluster provider (codes "70") two_nodes

fails_busy : after_delete.0 ≡ fail busy
unfolding delete_node delete_parsed delete_instance delete_locked find_or_forget find_lke_node_pool
    judge_pools judge_lookup remove_from remove_node judge_deleted find_pool_of
    is_karpenter_managed_pool int_eq atoi is_not_found tag_list_to_map insert split_tag text_eq
    lookup delete_by_id unless_failed_recently record_delete_result new_backoff_tracker check
    is_node_claim_not_found is_retryable_error record_failure
fails_busy = refl

-- three requests were made, and the backoff is for its base delay
at_three : after_delete.1.world.time ≡ 3
unfolding delete_node delete_parsed delete_instance delete_locked find_or_forget find_lke_node_pool
    judge_pools judge_lookup remove_from remove_node judge_deleted find_pool_of
    is_karpenter_managed_pool int_eq atoi is_not_found tag_list_to_map insert split_tag text_eq
    lookup delete_by_id unless_failed_recently record_delete_result new_backoff_tracker check
    is_node_claim_not_found is_retryable_error record_failure
at_three = refl

later_at_three : (delete_by_id cluster provider (codes "70") two_nodes).1.world.time ≡ 3
unfolding delete_node delete_parsed delete_instance delete_locked find_or_forget find_lke_node_pool
    judge_pools judge_lookup remove_from remove_node judge_deleted find_pool_of
    is_karpenter_managed_pool int_eq atoi is_not_found tag_list_to_map insert split_tag text_eq
    lookup delete_by_id unless_failed_recently record_delete_result new_backoff_tracker check
    is_node_claim_not_found is_retryable_error record_failure
later_at_three = refl

busy_present : is_node_claim_not_found busy ≡ false
unfolding is_node_claim_not_found
busy_present = refl

busy_retryable : is_retryable_error busy ≡ true
unfolding is_retryable_error
busy_retryable = refl

for_ten : hold cluster after_delete.1.delete_backoff 3 (codes "70") busy ≡ 10
unfolding delete_node delete_parsed delete_instance delete_locked find_or_forget find_lke_node_pool
    judge_pools judge_lookup remove_from remove_node judge_deleted find_pool_of
    is_karpenter_managed_pool int_eq atoi is_not_found tag_list_to_map insert split_tag text_eq
    lookup delete_by_id unless_failed_recently record_delete_result new_backoff_tracker check
    is_node_claim_not_found is_retryable_error record_failure hold
for_ten = refl

delete_by_id-again_example :
    delete_by_id cluster provider
      (codes "70")
      (delete_by_id cluster provider (codes "70") two_nodes).1
    ≡ (fail (wrap busy), (delete_by_id cluster provider (codes "70") two_nodes).1)
delete_by_id-again_example =
    delete_by_id-again cluster provider (sample_cache-CacheLaws _ backoff_ttl) (codes "70")
      two_nodes (delete_by_id cluster provider (codes "70") two_nodes).1 busy not_held fails_busy
      busy_present busy_retryable refl (rw (at_three, later_at_three) (omega arith))
      (rw (at_three, later_at_three, for_ten) (omega arith))
      (rw (at_three, later_at_three) (omega arith))

cluster-ClockLaws : ClockLaws cluster
cluster-ClockLaws = record {
  get_instance-now = λ id w. omega arith;
  sleep-now = λ d w. omega arith;
}

-- a timeout of 20 and a delay of 5
verify_tags_applied-ends_example :
    (verify_tags_applied cluster provider 5 (pos 70) (codes "web-1") two_nodes).0 ≢ running
verify_tags_applied-ends_example =
    verify_tags_applied-ends cluster provider cluster-ClockLaws 4 (pos 70) (codes "web-1") two_nodes
      (omega arith)
