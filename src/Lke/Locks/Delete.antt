-- ===== src/Lke/Locks/Delete.antt =====
-- Delete and the pool locks.
use karpenter_provider_linod.Lke.Locks.{
  locks, unlocks, writes, Holding, Holding-Reading, Locked, start,
}
use karpenter_provider_linod.Base.{
  ◌≡◌, refl, inl, inr, Option, none, some, List, leb, Bool-cases, Option-cases, length, Text, ℤ,
  atoi,
}
use karpenter_provider_linod.Errors.{is_node_claim_not_found, is_not_found, is_retryable_error, Err}
use karpenter_provider_linod.Objects.{node_pool_label_key, at, PoolNode, NodePool}
use karpenter_provider_linod.Lke.State.{
  raise, attempt, request, with_pool_lock, drop_node, Result, Env, Provider, State, Outcome, ok,
  err, done, fail, running, Event, Outcome-cases,
}
use karpenter_provider_linod.Lke.Pools.{make_pool_key, list_pools}
use karpenter_provider_linod.Tags.{tag_list_to_map}
use karpenter_provider_linod.Lke.Delete.{
  find_pool_of, judge_pools, find_lke_node_pool, judge_lookup, find_or_forget, judge_deleted,
  remove_pool, remove_node, remove_from, delete_locked, delete_instance, delete_node,
  record_delete_result, delete_by_id, delete_parsed, unless_failed_recently,
}
use karpenter_provider_linod.Lke.Keeps.{Keeps, Keeps-bind, Keeps-then, Keeps-if}

module _ (e : Env) (p : Provider) (Own : Text → Type 0) (before : List Event)
    (held : Option Text) where
  drop_node-Holding : (id : Text) → Keeps (Holding Own before held) (drop_node e id)
  unfolding drop_node Holding
  drop_node-Holding id s h = h

  judge_pools-Holding :
      (id : ℤ) (a : Result (List NodePool)) → Keeps (Holding Own before held) (judge_pools e p id a)
  unfolding judge_pools
  judge_pools-Holding id (err x) s h = h
  judge_pools-Holding id (ok pools) s h = elim (Option-cases (find_pool_of id pools)) [
    | inl absent ↦ rw (judge_pools, absent) h
    | inr (pool, found) ↦ rw (judge_pools, found) h
  ]

  judge_lookup-Holding :
      (id : Text) (a : Result NodePool) → Keeps (Holding Own before held) (judge_lookup e p id a)
  unfolding judge_lookup
  judge_lookup-Holding id (ok pool) = λ s h. h
  judge_lookup-Holding id (err x) =
      Keeps-if (Holding Own before held) (is_node_claim_not_found x) _ (raise x)
        (Keeps-then (Holding Own before held) (drop_node e id) (raise x) (drop_node-Holding id)
          (λ s h. h))
        (λ s h. h)

  find_or_forget-Holding :
      (id : Text) (instance_id : ℤ)
      → Keeps (Holding Own before held) (find_or_forget e p id instance_id)
  unfolding find_or_forget find_lke_node_pool
  find_or_forget-Holding id instance_id =
      Keeps-bind (Holding Own before held) (attempt (find_lke_node_pool e p instance_id)) _
        (Keeps-bind (Holding Own before held) (attempt (list_pools e p)) _
          ((Holding-Reading e Own before held).lists_pools p.cluster_id)
          (judge_pools-Holding instance_id))
        (judge_lookup-Holding id)

  judge_deleted-Holding :
      (id : Text) (a : Result (Unit {0})) → Keeps (Holding Own before held) (judge_deleted e p id a)
  unfolding judge_deleted
  judge_deleted-Holding id (ok _) = drop_node-Holding id
  judge_deleted-Holding id (err x) =
      Keeps-if (Holding Own before held) (is_not_found x) _ (raise x)
        (Keeps-then (Holding Own before held) (drop_node e id) (raise _) (drop_node-Holding id)
          (λ s h. h))
        (λ s h. h)

module _ (e : Env) (p : Provider) (Own : Text → Type 0) (before : List Event) (key : Text) where
  remove_pool-Holding :
      (id : Text) (pool : NodePool)
      → Keeps (Holding Own before (some key)) (remove_pool e p id pool)
  unfolding remove_pool Holding
  remove_pool-Holding id pool =
      Keeps-bind (Holding Own before (some key)) (attempt (request _ _)) _ (λ s h. writes _ _ h)
        (judge_deleted-Holding e p Own before (some key) id)

  remove_node-Holding :
      (id : Text) (o : Option PoolNode)
      → Keeps (Holding Own before (some key)) (remove_node e p id o)
  unfolding remove_node Holding
  remove_node-Holding id none =
      Keeps-then (Holding Own before (some key)) (drop_node e id) (raise _)
        (drop_node-Holding e p Own before (some key) id) (λ s h. h)
  remove_node-Holding id (some node) =
      Keeps-bind (Holding Own before (some key)) (attempt (request _ _)) _ (λ s h. writes _ _ h)
        (judge_deleted-Holding e p Own before (some key) id)

  delete_locked-Holding :
      (id : Text) (instance_id : ℤ)
      → Keeps (Holding Own before (some key)) (delete_locked e p id instance_id)
  unfolding delete_locked remove_from
  delete_locked-Holding id instance_id =
      Keeps-bind (Holding Own before (some key)) (find_or_forget e p id instance_id) _
        (find_or_forget-Holding e p Own before (some key) id instance_id)
        (λ pool.
          Keeps-if (Holding Own before (some key)) (leb (length pool.linodes) 1) _ _
            (remove_pool-Holding id pool) (remove_node-Holding id _))

module _ (e : Env) (p : Provider) (Own : Text → Type 0) (before : List Event) where
  delete_under_lock-Holding :
      (id : Text) (instance_id : ℤ) (key : Text)
      → Own key
      → Keeps (Holding Own before none) (with_pool_lock key (delete_locked e p id instance_id))
  unfolding Holding
  delete_under_lock-Holding id instance_id key own s h =
      unlocks key (delete_locked-Holding e p Own before key id instance_id _ (locks key own h))

  record_delete_result-Holding :
      (id : Text) (r : Outcome (Unit {0})) (s : State e)
      → Holding Own before none s
      → Holding Own before none (record_delete_result e p id r s)
  unfolding record_delete_result Holding
  record_delete_result-Holding id running s h = h
  record_delete_result-Holding id (done _) s h = h
  record_delete_result-Holding id (fail x) s h = elim (Bool-cases (is_node_claim_not_found x)) [
    | inl gone ↦ rw gone h
    | inr there ↦ elim (Bool-cases (is_retryable_error x)) [
      | inl again ↦ rw (there, again) h
      | inr never ↦ rw (there, never) h
    ]
  ]

-- the key of the pool in which Delete finds the instance at first
unfoldable pub InstanceKey : (e : Env) → Provider → Text → State e → Text → Type 0
InstanceKey e p id s key =
    (instance_id : ℤ) × (pool : NodePool) × (atoi id ≡ some instance_id)
    × ((find_or_forget e p id instance_id s).0 ≡ done pool)
    × (key ≡ make_pool_key (at (tag_list_to_map pool.tags) node_pool_label_key) pool.type)

module _ (e : Env) (p : Provider) (id : Text) (s : State e) where
  delete_parsed-Holding :
      (o : Option ℤ)
      → atoi id ≡ o
      → Holding (InstanceKey e p id s) s.events none (delete_parsed e p id o s).1
  unfolding delete_parsed delete_instance InstanceKey Holding
  delete_parsed-Holding none parsed = start
  delete_parsed-Holding (some instance_id) parsed =
      let looked =
        find_or_forget-Holding e p (InstanceKey e p id s) s.events none id instance_id s start in
      elim (Outcome-cases (find_or_forget e p id instance_id s).0) [
        | inl (pool, found) ↦ rw found (
            delete_under_lock-Holding e p (InstanceKey e p id s) s.events id instance_id _
              (instance_id, pool, parsed, found, refl) _ looked)
        | inr (inl (x, failed)) ↦ rw failed looked
        | inr (inr stuck) ↦ rw stuck looked
      ]

  unless_failed_recently-Holding :
      (o : Option Err)
      → Holding (InstanceKey e p id s) s.events none (unless_failed_recently e p id o s).1
  unfolding unless_failed_recently delete_node Holding
  unless_failed_recently-Holding (some x) = start
  unless_failed_recently-Holding none =
      record_delete_result-Holding e p (InstanceKey e p id s) s.events id _ _
        (delete_parsed-Holding (atoi id) refl)

  -- Delete takes at most the lock of the pool key of the pool in which it found the instance, made of
  -- that pool's node pool tag and instance type; it makes every request that writes while it holds that
  -- lock, and holds none at its end, however it ends.
  pub delete_by_id-Locked :
      Locked (InstanceKey e p id s) s.events none (delete_by_id e p id s).1.events
  unfolding Holding delete_by_id
  delete_by_id-Locked = unless_failed_recently-Holding _
