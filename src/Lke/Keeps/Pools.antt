-- ===== src/Lke/Keeps/Pools.antt =====
-- What the operations on node pools keep.
use karpenter_provider_linod.Base.{Option, none, some, List, Text, Dict}
use karpenter_provider_linod.Errors.{wrap}
use karpenter_provider_linod.Objects.{
  NodeClaim, NodeClass, Instance, NodePool, RegionAvailability, on_recycle,
}
use karpenter_provider_linod.Lke.State.{
  pure, raise, attempt, wrapped, request, cache_node, drop_node, Result, Env, Provider, State, ok,
  err,
}
use karpenter_provider_linod.Lke.Pools.{
  is_plan_unavailable_error, plan_available, mark_plan, judge_availability, check_plan_availability,
  reconcile_to, reconcile_pool_version, judge_created, create_pool, use_or_create, list_pools,
  find_or_create_pool, same_version, reconcile_wanted,
}
use karpenter_provider_linod.Lke.Keeps.{Keeps, Keeps-bind, Keeps-then, Keeps-if, Reading, Writing}

module _ (e : Env) (p : Provider) (P : State e → Type 0) (r : Reading e P) where
  drop_node-Keeps : (id : Text) → Keeps P (drop_node e id)
  unfolding drop_node
  drop_node-Keeps id = λ s h. r.caches _ s h

  pub cache_node-Keeps : (n : Instance) → Keeps P (cache_node e n)
  unfolding cache_node
  cache_node-Keeps n = λ s h. r.caches _ s h

module _ (e : Env) (p : Provider) (P : State e → Type 0) (w : Writing e P) where
  mark_plan-Keeps : (type : Text) → Keeps P (mark_plan e p type)
  unfolding mark_plan
  mark_plan-Keeps type = λ s h. w.marks _ s h

  judge_availability-Keeps :
      (type : Text) (r : Result (List RegionAvailability)) → Keeps P (judge_availability e p type r)
  unfolding judge_availability
  judge_availability-Keeps type (err x) = λ s h. h
  judge_availability-Keeps type (ok availability) =
      Keeps-if P (plan_available type availability) _ _ (λ s h. h)
        (Keeps-then P (mark_plan e p type) (raise _) (mark_plan-Keeps type) (λ s h. h))

  pub check_plan_availability-Keeps : (type : Text) → Keeps P (check_plan_availability e p type)
  unfolding check_plan_availability
  check_plan_availability-Keeps type =
      Keeps-bind P (attempt (request _ _)) _ (w.reading.gets_availability p.region)
        (judge_availability-Keeps type)

  reconcile_to-Keeps : (wanted : Text) (pool : NodePool) → Keeps P (reconcile_to e p wanted pool)
  unfolding reconcile_to
  reconcile_to-Keeps wanted pool =
      Keeps-if P (same_version pool.k8s_version wanted) _ _ (λ s h. h)
        (Keeps-then P (wrapped (request _ _)) (drop_node e _)
          (w.updates_version p.cluster_id pool.id (some wanted) (some on_recycle))
          (drop_node-Keeps e p P w.reading _))

  reconcile_wanted-Keeps :
      (pool : NodePool) (o : Option Text) → Keeps P (reconcile_wanted e p pool o)
  unfolding reconcile_wanted
  reconcile_wanted-Keeps pool none = λ s h. h
  reconcile_wanted-Keeps pool (some wanted) = reconcile_to-Keeps wanted pool

  reconcile_pool_version-Keeps :
      (c : NodeClass) (pool : NodePool) → Keeps P (reconcile_pool_version e p c pool)
  unfolding reconcile_pool_version
  reconcile_pool_version-Keeps c pool = reconcile_wanted-Keeps pool c.lke_k8s_version

  judge_created-Keeps : (type : Text) (r : Result NodePool) → Keeps P (judge_created e p type r)
  unfolding judge_created
  judge_created-Keeps type (ok pool) = λ s h. w.creates s h
  judge_created-Keeps type (err x) =
      Keeps-if P (is_plan_unavailable_error (wrap x) type) _ _
        (Keeps-then P (mark_plan e p type) (raise _) (mark_plan-Keeps type) (λ s h. h)) (λ s h. h)

  create_pool-Keeps :
      (c : NodeClass) (claim : NodeClaim) (tags : Dict Text) (type : Text)
      → Keeps P (create_pool e p c claim tags type)
  unfolding create_pool
  create_pool-Keeps c claim tags type =
      Keeps-bind P (attempt (request _ _)) _ (w.creates_pool p.cluster_id _)
        (judge_created-Keeps type)

  use_or_create-Keeps :
      (c : NodeClass) (claim : NodeClaim) (tags : Dict Text) (type : Text) (o : Option NodePool)
      → Keeps P (use_or_create e p c claim tags type o)
  unfolding use_or_create
  use_or_create-Keeps c claim tags type (some pool) =
      Keeps-then P (reconcile_pool_version e p c pool) (pure pool)
        (reconcile_pool_version-Keeps c pool) (λ s h. h)
  use_or_create-Keeps c claim tags type none = create_pool-Keeps c claim tags type

  pub find_or_create_pool-Keeps :
      (c : NodeClass) (claim : NodeClaim) (tags : Dict Text) (type : Text)
      → Keeps P (find_or_create_pool e p c claim tags type)
  unfolding find_or_create_pool
  find_or_create_pool-Keeps c claim tags type =
      Keeps-bind P (wrapped (list_pools e p)) _ (w.reading.lists_pools p.cluster_id)
        (λ pools. use_or_create-Keeps c claim tags type _)
