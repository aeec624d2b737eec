-- ===== src/Lke/Locks/Create.antt =====
-- Create and the pool locks.
use karpenter_provider_linod.Lke.Locks.{
  locks, unlocks, writes, Holding, Holding-Reading, Locked, start,
}
use karpenter_provider_linod.Base.{
  ◌≡◌, refl, ℕ, inl, inr, not, ◌||◌, none, some, List, Bool-cases, Text, Dict, ℤ,
}
use karpenter_provider_linod.Errors.{is_retryable_error}
use karpenter_provider_linod.Objects.{
  node_pool_label_key, at, NodeClaim, NodeClass, NodePool, PoolUpdateOptions,
}
use karpenter_provider_linod.Lke.State.{
  raise, attempt, request, Result, Env, Provider, State, Event, ok, err, done, update_node_pool,
}
use karpenter_provider_linod.Lke.Pools.{make_pool_key, check_plan_availability}
use karpenter_provider_linod.Lke.Lookup.{resolve_create_instance_type}
use karpenter_provider_linod.Lke.Create.{
  judge_scaled, request_scale, scale_pool, attempt_create, create_in_pool, create,
}
use karpenter_provider_linod.Lke.Keeps.{Keeps, Keeps-bind, Keeps-then, Keeps-if, Writing}
use karpenter_provider_linod.Lke.Keeps.Pools.{check_plan_availability-Keeps}
use karpenter_provider_linod.Lke.Keeps.Create.{attempt_locked-Keeps}
use karpenter_provider_linod.Lke.Keeps.Loop.{create_in_pool-Keeps, create-from}

module _ (e : Env) (p : Provider) (Own : Text → Type 0) (before : List Event) (key : Text) where
  Holding-Writing : Writing e (Holding Own before (some key))
  unfolding Holding
  Holding-Writing = record {
    reading = Holding-Reading e Own before (some key);
    updates_instance = λ id tags s h. writes _ _ h;
    creates_pool = λ id options s h. writes _ _ h;
    updates_version = λ id pool version strategy s h. writes _ _ h;
    marks = λ u s h. h;
    sleeps = λ d s h. h;
    creates = λ s h. h;
  }

  request_update-Holding :
      (id pool : ℤ) (options : PoolUpdateOptions) (s : State e)
      → Locked Own before (some key) s.events
      → Holding {e = e} Own before
          (some key)
          (request (update_node_pool pool options) (e.api.update_node_pool id pool options) s).1
  unfolding Holding
  request_update-Holding id pool options s h = writes _ _ h

  judge_scaled-Holding :
      (a : Result NodePool) → Keeps (Holding Own before (some key)) (judge_scaled e p a)
  unfolding judge_scaled Holding
  judge_scaled-Holding (ok a) = λ s h. h
  judge_scaled-Holding (err x) =
      Keeps-if (Holding Own before (some key)) (not (is_retryable_error x)) (raise _) (raise _)
        (λ s h. h) (λ s h. h)

  request_scale-Holding :
      (type : Text) (pool : NodePool)
      → Keeps (Holding Own before (some key)) (request_scale e p type pool)
  unfolding request_scale Holding
  request_scale-Holding type pool =
      Keeps-then (Holding Own before (some key)) (check_plan_availability e p type) _
        (check_plan_availability-Keeps e p _ Holding-Writing type)
        (Keeps-bind (Holding Own before (some key)) (attempt (request _ _)) _
          (request_update-Holding p.cluster_id pool.id _) judge_scaled-Holding)

  scale_pool-Holding :
      (type : Text) (pool : NodePool)
      → Keeps (Holding Own before (some key)) (scale_pool e p type pool)
  unfolding scale_pool
  scale_pool-Holding type pool s h = elim (Bool-cases (s.created_pool || s.scaled_once)) [
    | inl spent ↦ rw spent h
    | inr free ↦ rw free (request_scale-Holding type pool s h)
  ]

module _ (e : Env) (p : Provider) (c : NodeClass) (claim : NodeClaim) (tags : Dict Text)
    (Own : Text → Type 0) (before : List Event) where
  attempt_create-Holding :
      (fuel : ℕ) (type key : Text)
      → Own key
      → Keeps (Holding {e = e} Own before none) (attempt_create e p fuel c claim tags type key)
  unfolding attempt_create Holding
  attempt_create-Holding fuel type key own s h = unlocks key (
      attempt_locked-Keeps e p (Holding Own before (some key)) (Holding-Writing e p Own before key)
        (scale_pool-Holding e p Own before key) fuel c claim tags type _ (locks key own h))

  create_in_pool-Holding :
      (fuel : ℕ) (type : Text) (s : State e)
      → Own (make_pool_key (at claim.labels node_pool_label_key) type)
      → Holding Own before none s
      → Holding Own before none (create_in_pool e p fuel c claim tags type s).1
  unfolding Holding
  create_in_pool-Holding fuel type s own h =
      create_in_pool-Keeps e p (Holding Own before none) (Holding-Reading e Own before none)
        (λ d s' k. k) (λ b s' k. k) c claim tags fuel type s
        (attempt_create-Holding fuel type _ own) h h

-- the key of the pool of the claim's node pool with the instance type that Create takes
unfoldable pub ClaimKey :
    (e : Env) → Provider → NodeClaim → List e.catalog.InstanceType → State e → Text → Type 0
ClaimKey e p claim types s key =
    (type : Text) × ((resolve_create_instance_type e p types claim s).0 ≡ done type)
    × (key ≡ make_pool_key (at claim.labels node_pool_label_key) type)

-- Create takes one lock at a time, always that of the pool key of the claim's node pool and of the
-- instance type that it resolved; it releases the lock it holds, makes every request that writes while
-- it holds that lock, and holds none at its end, however it ends.
pub create-Locked :
    (e : Env) (p : Provider) (c : NodeClass) (claim : NodeClaim) (tags : Dict Text) (fuel : ℕ)
    (types : List e.catalog.InstanceType) (s : State e)
    → Locked
        (ClaimKey e p claim types s)
        s.events
        none
        (create e p fuel c claim tags types s).1.events
unfolding Holding ClaimKey
create-Locked e p c claim tags fuel types s =
    let Own = ClaimKey e p claim types s in
    create-from e p (Holding Own s.events none) (Holding Own s.events none)
      (Holding-Reading e Own s.events none) (λ s' k. k) c claim tags types s
      (λ fuel' type u chosen h.
        create_in_pool-Holding e p c claim tags Own s.events fuel' type u (type, chosen, refl) h)
      fuel start
