-- ===== src/Lke/Delete.antt =====
-- Delete: the pool of an instance, the removal of its node or of the whole pool, and the backoff.
pub mod Safety
pub mod Again
use karpenter_provider_linod.Base.{
  not, Option, none, some, List, [], ◌∷◌, leb, if◌then◌else◌, length, Text, ℤ, int_eq, atoi,
}
use karpenter_provider_linod.Errors.{
  is_node_claim_not_found, is_not_found, is_retryable_error, message, wrap, node_claim_not_found,
  Err,
}
use karpenter_provider_linod.Tags.{tag_list_to_map}
use karpenter_provider_linod.Objects.{node_pool_label_key, at, PoolNode, NodePool}
use karpenter_provider_linod.Backoff.{check, record_failure, clear}
use karpenter_provider_linod.Lke.State.{
  Exec, ◌>>=◌, ◌>>◌, pure, raise, attempt, request, with_pool_lock, drop_node, Result, Env,
  Provider, State, Outcome, ok, err, delete_node_pool, delete_node_pool_node, done, fail, running,
}
use karpenter_provider_linod.Lke.Pools.{make_pool_key, is_karpenter_managed_pool, list_pools}

-- the inner loop of findLKENodePoolFromLinodeInstanceID, and findNodeInPool
unfoldable pub find_node : ℤ → List PoolNode → Option PoolNode
unfolding int_eq
find_node instance_id [] = none
find_node instance_id (node ∷ nodes) =
    if int_eq node.instance_id instance_id then some node else find_node instance_id nodes

unfoldable pub find_pool_of : ℤ → List NodePool → Option NodePool
unfolding find_node is_karpenter_managed_pool
find_pool_of instance_id [] = none
find_pool_of instance_id (pool ∷ pools) =
    if not (is_karpenter_managed_pool pool)
    then find_pool_of instance_id pools
    else elim (find_node instance_id pool.linodes) [
      | none ↦ find_pool_of instance_id pools
      | some _ ↦ some pool
    ]

module _ (e : Env) (p : Provider) where
  unfoldable pub judge_pools : ℤ → Result (List NodePool) → Exec e NodePool
  judge_pools instance_id (err x) = raise (if is_not_found x then node_claim_not_found x else x)
  judge_pools instance_id (ok pools) = elim (find_pool_of instance_id pools) [
    | none ↦ raise (node_claim_not_found message)
    | some pool ↦ pure pool
  ]

  -- findLKENodePoolFromLinodeInstanceID
  unfoldable pub find_lke_node_pool : ℤ → Exec e NodePool
  find_lke_node_pool instance_id = do
    pools ← attempt (list_pools e p)
    judge_pools instance_id pools

  unfoldable pub judge_lookup : Text → Result NodePool → Exec e NodePool
  judge_lookup id (ok pool) = pure pool
  judge_lookup id (err x) =
      if is_node_claim_not_found x then (do drop_node e id; raise x) else raise x

  -- a lookup that forgets the instance when it is in no pool
  unfoldable pub find_or_forget : Text → ℤ → Exec e NodePool
  find_or_forget id instance_id = do
    found ← attempt (find_lke_node_pool instance_id)
    judge_lookup id found

  unfoldable pub judge_deleted : Text → Result (Unit {0}) → Exec e (Unit {0})
  judge_deleted id (ok _) = drop_node e id
  judge_deleted id (err x) =
      if is_not_found x then (do drop_node e id; raise (node_claim_not_found x)) else raise x

  -- DeleteLKENodePool, with what follows it
  unfoldable pub remove_pool : Text → NodePool → Exec e (Unit {0})
  remove_pool id pool = do
    deleted ←
        attempt (request (delete_node_pool pool.id) (e.api.delete_node_pool p.cluster_id pool.id))
    judge_deleted id deleted

  -- DeleteLKENodePoolNode, with what follows it
  unfoldable pub remove_node : Text → Option PoolNode → Exec e (Unit {0})
  remove_node id none = do drop_node e id; raise (node_claim_not_found message)
  remove_node id (some node) = do
    deleted ←
        attempt (
          request (delete_node_pool_node node.id)
            (e.api.delete_node_pool_node p.cluster_id node.id))
    judge_deleted id deleted

  unfoldable pub remove_from : Text → ℤ → NodePool → Exec e (Unit {0})
  remove_from id instance_id pool =
      if leb (length pool.linodes) 1
      then remove_pool id pool
      else remove_node id (find_node instance_id pool.linodes)

  -- the function that delete runs under the lock
  unfoldable pub delete_locked : Text → ℤ → Exec e (Unit {0})
  delete_locked id instance_id = do
    pool ← find_or_forget id instance_id
    remove_from id instance_id pool

  unfoldable pub delete_instance : Text → ℤ → Exec e (Unit {0})
  delete_instance id instance_id = do
    pool ← find_or_forget id instance_id
    with_pool_lock (make_pool_key (at (tag_list_to_map pool.tags) node_pool_label_key) pool.type)
        (delete_locked id instance_id)

  unfoldable pub delete_parsed : Text → Option ℤ → Exec e (Unit {0})
  delete_parsed id none = raise (node_claim_not_found (wrap message))
  delete_parsed id (some instance_id) = delete_instance id instance_id

  -- delete
  unfoldable pub delete_node : Text → Exec e (Unit {0})
  delete_node id = delete_parsed id (atoi id)

  -- recordDeleteResult
  unfoldable pub record_delete_result : Text → Outcome (Unit {0}) → State e → State e
  record_delete_result id running s = s
  record_delete_result id (done _) s = record s {
    delete_backoff = clear e.backoff_ops s.delete_backoff id;
  }
  record_delete_result id (fail x) s =
      if is_node_claim_not_found x
      then record s { delete_backoff = clear e.backoff_ops s.delete_backoff id }
      else if is_retryable_error x
      then record s {
        delete_backoff = record_failure e.backoff_ops s.delete_backoff (e.now s.world) id x;
      }
      else s

  unfoldable pub unless_failed_recently : Text → Option Err → Exec e (Unit {0})
  unless_failed_recently id (some x) s = (fail x, s)
  unless_failed_recently id none s =
      let (r, s') = delete_node id s in (r, record_delete_result id r s')

  -- Delete
  unfoldable pub delete_by_id : Text → Exec e (Unit {0})
  delete_by_id id s =
      unless_failed_recently id (check e.backoff_ops s.delete_backoff (e.now s.world) id) s
