-- ===== src/Lke/Create/Scaling.antt =====
-- How often one Create scales a pool.
use karpenter_provider_linod.Base.{
  ℕ, ◌+◌, ◌≤◌, inl, inr, ◌||◌, none, some, List, [], ◌∷◌, arith, if◌then◌else◌, Bool-cases, Text,
  suc, Bool, false, Dict, ◌≡◌,
}
use karpenter_provider_linod.Lke.State.{
  Result-cases, Env, Provider, Event, State, update_node_pool, called, succeeded, Result, ok, err,
  Outcome-cases, ◌>>=◌, attempt, request, lock, modify,
}
use karpenter_provider_linod.Lke.Pools.{check_plan_availability}
use karpenter_provider_linod.Lke.Keeps.{Writing, Keeps}
use karpenter_provider_linod.Objects.{NodePool, PoolUpdateOptions, NodeClaim, NodeClass}
use karpenter_provider_linod.Lke.Create.{
  judge_scaled, scale_pool, request_scale, attempt_create, create, create_in_pool,
}
use karpenter_provider_linod.Lke.Keeps.Pools.{check_plan_availability-Keeps}
use karpenter_provider_linod.Lke.Keeps.Create.{attempt_locked-Keeps}
use karpenter_provider_linod.Lke.Keeps.Loop.{create_in_pool-Keeps, create-from}
use karpenter_provider_linod.Backoff.{BackoffTracker}

-- a request that sets the number of nodes of a pool, and that succeeded
unfoldable pub scaled : Event → Bool
scaled (called (update_node_pool pool options) success) = elim options.count [
  | none ↦ false
  | some _ ↦ success
]
scaled _ = false

unfoldable pub scalings : List Event → ℕ
unfolding scaled
scalings [] = 0
scalings (event ∷ events) = let rest = scalings events in if scaled event then suc rest else rest

-- At most n pools are scaled in all, with the one that this Create may still scale.
Within : {e : Env} → ℕ → State e → Type 0
Within n s = scalings s.events + (if s.created_pool || s.scaled_once then 0 else 1) ≤ n

-- so many are scaled that one more is allowed
Free : {e : Env} → ℕ → State e → Type 0
Free n s = scalings s.events + 1 ≤ n

Free-least : (e : Env) (s : State e) → Free (scalings s.events + 1) s
unfolding Free
Free-least e s = ground arith

module _ (e : Env) (p : Provider) (n : ℕ) where
  Within-Writing : Writing e (Within n)
  unfolding Within scalings
  Within-Writing = record {
    reading = record {
      lists_instances = λ filter s h. h;
      gets_instance = λ id s h. h;
      gets_availability = λ region s h. h;
      lists_pools = λ id s h. h;
      gets_pool = λ id pool s h. h;
      caches = λ c s h. h;
    };
    updates_instance = λ id tags s h. h;
    creates_pool = λ id options s h. h;
    updates_version = λ id pool version strategy s h. h;
    marks = λ u s h. h;
    sleeps = λ d s h. h;
    creates = λ s h. ground arith;
  }

  Free-Writing : Writing e (Free n)
  unfolding Free scalings
  Free-Writing = record {
    reading = record {
      lists_instances = λ filter s h. h;
      gets_instance = λ id s h. h;
      gets_availability = λ region s h. h;
      lists_pools = λ id s h. h;
      gets_pool = λ id pool s h. h;
      caches = λ c s h. h;
    };
    updates_instance = λ id tags s h. h;
    creates_pool = λ id options s h. h;
    updates_version = λ id pool version strategy s h. h;
    marks = λ u s h. h;
    sleeps = λ d s h. h;
    creates = λ s h. h;
  }

  Within-bound : (s : State e) → Within n s → scalings s.events ≤ n
  unfolding Within
  Within-bound s h = ground arith

  Free-start :
      (s : State e) → Free n s → Within n (record s { created_pool = false; scaled_once = false })
  unfolding Free Within
  Free-start s h = h

  Within-backoff :
      (b : BackoffTracker e.BackoffCache)
      → Keeps (Within {e = e} n) (modify λ s. record s { pool_backoff = b })
  unfolding Within
  Within-backoff b s h = h

  Free-Within : (s : State e) → Free n s → Within n s
  unfolding Free Within
  Free-Within s h = ground arith

  Within-Free : (s : State e) → (s.created_pool || s.scaled_once) ≡ false → Within n s → Free n s
  unfolding Free Within
  Within-Free s free h = rw free at h

  -- the answer to the scaling, from a state in which it is still allowed
  judge_scaled-Within :
      (pool : NodePool) (a : Result NodePool) (w : e.World) (options : PoolUpdateOptions)
      (s : State e)
      → Free n s
      → Within n
          (judge_scaled e p a (record s {
            world = w;
            events = called (update_node_pool pool.id options) (succeeded a) ∷ s.events;
          })).1
  unfolding judge_scaled Within Free scalings
  judge_scaled-Within pool (ok a) w options s h = ground arith
  judge_scaled-Within pool (err x) w options s h = ground arith

  scale_up-Within :
      (pool : NodePool) (options : PoolUpdateOptions) (s : State e)
      → Free n s
      → Within n
          ((attempt (
                request
                  (update_node_pool pool.id options)
                  (e.api.update_node_pool p.cluster_id pool.id options))
              >>= judge_scaled e p)
            s).1
  scale_up-Within pool options s h =
      elim (Result-cases (e.api.update_node_pool p.cluster_id pool.id options s.world).0) [
        | inl (a, answered) ↦ rw answered (judge_scaled-Within pool (ok a) _ options s h)
        | inr (x, failed) ↦ rw failed (judge_scaled-Within pool (err x) _ options s h)
      ]

  request_scale-Within :
      (type : Text) (pool : NodePool) (s : State e)
      → Free n s
      → Within n (request_scale e p type pool s).1
  unfolding request_scale
  request_scale-Within type pool s h =
      let kept = check_plan_availability-Keeps e p (Free n) Free-Writing type s h in
      elim (Outcome-cases (check_plan_availability e p type s).0) [
        | inl (u, checked) ↦ rw checked (scale_up-Within pool _ _ kept)
        | inr (inl (x, failed)) ↦ rw failed (Free-Within _ kept)
        | inr (inr stuck) ↦ rw stuck (Free-Within _ kept)
      ]

  scale_pool-Within : (type : Text) (pool : NodePool) → Keeps (Within n) (scale_pool e p type pool)
  unfolding scale_pool
  scale_pool-Within type pool s h = elim (Bool-cases (s.created_pool || s.scaled_once)) [
    | inl spent ↦ rw spent h
    | inr free ↦ rw free (request_scale-Within type pool s (Within-Free s free h))
  ]

  attempt_create-Within :
      (c : NodeClass) (claim : NodeClaim) (tags : Dict Text) (fuel : ℕ) (type key : Text)
      → Keeps (Within n) (attempt_create e p fuel c claim tags type key)
  unfolding attempt_create Within scalings
  attempt_create-Within c claim tags fuel type key s h =
      attempt_locked-Keeps e p (Within n) Within-Writing scale_pool-Within fuel c claim tags type
        (record s { events = lock key ∷ s.events }) h

module _ (e : Env) (p : Provider) (n : ℕ) (c : NodeClass) (claim : NodeClaim)
    (tags : Dict Text) where
  create_in_pool-Within :
      (fuel : ℕ) (type : Text) (s : State e)
      → Free n s
      → Within n (create_in_pool e p fuel c claim tags type s).1
  create_in_pool-Within fuel type s h =
      create_in_pool-Keeps e p (Within n) (Within-Writing e p n).reading
        (Within-Writing e p n).sleeps (Within-backoff e p n) c claim tags fuel type s
        (attempt_create-Within e p n c claim tags fuel type _) (Free-Within e p n s h)
        (Free-start e p n s h)

-- In one call of Create, with all its attempts, at most one request that sets the number of nodes of
-- a pool succeeds.
pub create-scalings :
    (e : Env) (p : Provider) (fuel : ℕ) (c : NodeClass) (claim : NodeClaim) (tags : Dict Text)
    (types : List e.catalog.InstanceType) (s : State e)
    → scalings (create e p fuel c claim tags types s).1.events ≤ scalings s.events + 1
create-scalings e p fuel c claim tags types s =
    let n = scalings s.events + 1 in
    Within-bound e p n _ (
      create-from e p (Free n) (Within n) (Free-Writing e p n).reading (Free-Within e p n) c claim
        tags types s (λ fuel' type u _ h. create_in_pool-Within e p n c claim tags fuel' type u h)
        fuel (Free-least e s))
