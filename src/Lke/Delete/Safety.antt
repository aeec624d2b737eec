-- ===== src/Lke/Delete/Safety.antt =====
-- What Delete removes, and when it makes no request.
use mathlib.Core.List.{Memᴰ}
use karpenter_provider_linod.Base.{
  ◌≤◌, ◌<◌, ◌≡◌, sym, subst, inl, inr, Bool, true, some, List, [], ◌∷◌, arith, Bool-cases, length,
  ℤ, int_eq, int_eq_iff, refl, Option-cases, Text, leb, leb→le, ap, ◌∙◌,
}
use karpenter_provider_linod.Objects.{PoolNode, NodePool}
use karpenter_provider_linod.Lke.State.{
  Result, Event, ok, delete_node_pool, delete_node_pool_node, called, Env, Provider, State, err,
  succeeded, list_node_pools, done, Result-cases, Outcome-cases, drop_node,
}
use karpenter_provider_linod.Lke.Pools.{is_karpenter_managed_pool}
use karpenter_provider_linod.Lke.Delete.{
  find_node, find_pool_of, remove_pool, remove_node, remove_from, judge_lookup, find_or_forget,
  delete_locked, judge_pools, find_lke_node_pool, judge_deleted,
}

find_node_sound :
    (instance_id : ℤ) (nodes : List PoolNode) (node : PoolNode)
    → find_node instance_id nodes ≡ some node
    → Memᴰ node nodes × (node.instance_id ≡ instance_id)
unfolding find_node
find_node_sound instance_id [] node h = cc
find_node_sound instance_id (n ∷ nodes) node h =
    elim (Bool-cases (int_eq n.instance_id instance_id)) [
      | inl same ↦
          let e : n ≡ node = ground arith in
          (
            Memᴰ.head (sym e),
            subst (λ (m : PoolNode). m.instance_id ≡ instance_id) e ((int_eq_iff _ _).0 same),
          )
      | inr ne ↦
          let (m, e) = find_node_sound instance_id nodes node (rw ne at h) in (Memᴰ.tail m, e)
    ]

-- a pool that Karpenter manages, with a node of the instance
pub record Hosts (instance_id : ℤ) (pools : List NodePool) (pool : NodePool) (node : PoolNode)
    : Type 0 where
  pub listed : Memᴰ pool pools
  pub managed : is_karpenter_managed_pool pool ≡ true
  pub member : Memᴰ node pool.linodes
  pub of_instance : node.instance_id ≡ instance_id

-- a node that hosts the instance, as the code finds it
HostFound : ℤ → List NodePool → NodePool → Type 0
HostFound instance_id pools pool =
    (node : PoolNode) × (find_node instance_id pool.linodes ≡ some node)
    × Hosts instance_id pools pool node

HostFound-tail :
    (instance_id : ℤ) (q : NodePool) (pools : List NodePool) (pool : NodePool)
    → HostFound instance_id pools pool
    → HostFound instance_id (q ∷ pools) pool
unfolding HostFound
HostFound-tail instance_id q pools pool (node, found, hosts) = (
  node,
  found,
  record {
    listed = Memᴰ.tail hosts.listed;
    managed = hosts.managed;
    member = hosts.member;
    of_instance = hosts.of_instance;
  },
)

HostFound-head :
    (instance_id : ℤ) (q : NodePool) (pools : List NodePool) (node : PoolNode)
    → is_karpenter_managed_pool q ≡ true
    → find_node instance_id q.linodes ≡ some node
    → HostFound instance_id (q ∷ pools) q
unfolding HostFound
HostFound-head instance_id q pools node ours found =
    let (m, i) = find_node_sound instance_id q.linodes node found in
    (node, found, record { listed = Memᴰ.head refl; managed = ours; member = m; of_instance = i })

find_pool_of-HostFound :
    (instance_id : ℤ) (pools : List NodePool) (pool : NodePool)
    → find_pool_of instance_id pools ≡ some pool
    → HostFound instance_id pools pool
unfolding find_pool_of
find_pool_of-HostFound instance_id [] pool h = cc
find_pool_of-HostFound instance_id (q ∷ pools) pool h =
    let ih = find_pool_of-HostFound instance_id pools pool in
    elim (Bool-cases (is_karpenter_managed_pool q)) [
      | inr foreign ↦ HostFound-tail instance_id q pools pool (ih (rw foreign at h))
      | inl ours ↦ elim (Option-cases (find_node instance_id q.linodes)) [
        | inl absent ↦ HostFound-tail instance_id q pools pool (ih (rw (ours, absent) at h))
        | inr (node, found) ↦
            let e : q ≡ pool = ground arith in
            subst (λ r. HostFound instance_id (q ∷ pools) r) e
              (HostFound-head instance_id q pools node ours found)
      ]
    ]

-- The events of delete_locked, over what the listing under the lock answered: nothing is removed; or
-- a whole pool of which the instance is the only node; or the instance's node of a larger pool.
pub data DeleteEvents (instance_id : ℤ) (answer : Result (List NodePool)) (before : List Event)
    : List Event → Type 0 where
  listed_only : DeleteEvents instance_id answer before before
  whole_pool :
      (pools : List NodePool) (pool : NodePool) (node : PoolNode) (succeeded : Bool)
      → answer ≡ ok pools
      → Hosts instance_id pools pool node
      → length pool.linodes ≤ 1
      → DeleteEvents instance_id answer before
          (called (delete_node_pool pool.id) succeeded ∷ before)
  one_node :
      (pools : List NodePool) (pool : NodePool) (node : PoolNode) (succeeded : Bool)
      → answer ≡ ok pools
      → Hosts instance_id pools pool node
      → 1 < length pool.linodes
      → DeleteEvents instance_id answer before
          (called (delete_node_pool_node node.id) succeeded ∷ before)

module _ (e : Env) (p : Provider) where
  remove_pool-events :
      (id : Text) (pool : NodePool) (s : State e)
      → (remove_pool e p id pool s).1.events
        ≡ called
            (delete_node_pool pool.id)
            (succeeded (e.api.delete_node_pool p.cluster_id pool.id s.world).0)
          ∷ s.events
  unfolding remove_pool judge_deleted drop_node
  remove_pool-events id pool s = ground arith

  remove_node-events :
      (id : Text) (node : PoolNode) (s : State e)
      → (remove_node e p id (some node) s).1.events
        ≡ called
            (delete_node_pool_node node.id)
            (succeeded (e.api.delete_node_pool_node p.cluster_id node.id s.world).0)
          ∷ s.events
  unfolding remove_node judge_deleted drop_node
  remove_node-events id node s = ground arith

  remove_from-events :
      (id : Text) (instance_id : ℤ) (pools : List NodePool) (pool : NodePool) (s : State e)
      → HostFound instance_id pools pool
      → DeleteEvents instance_id
          (ok pools)
          s.events
          (remove_from e p id instance_id pool s).1.events
  unfolding remove_from HostFound
  remove_from-events id instance_id pools pool s (node, found, hosts) =
      elim (Bool-cases (leb (length pool.linodes) 1)) [
        | inl last ↦
            rw (last, remove_pool-events)
              (whole_pool pools pool node _ refl hosts (leb→le _ _ last))
        | inr more ↦
            rw (more, found, remove_node-events)
              (one_node pools pool node _ refl hosts (ground arith))
      ]

  judge_lookup-events :
      (id : Text) (r : Result NodePool) (s : State e)
      → (judge_lookup e p id r s).1.events ≡ s.events
  unfolding judge_lookup drop_node
  judge_lookup-events id (ok pool) s = refl
  judge_lookup-events id (err x) s = ground arith

  -- The pool that delete_locked acts on comes from the listing under the lock.
  find_or_forget_found :
      (id : Text) (instance_id : ℤ) (s : State e) (pool : NodePool)
      → (find_or_forget e p id instance_id s).0 ≡ done pool
      → (pools : List NodePool) × ((e.api.list_node_pools p.cluster_id s.world).0 ≡ ok pools)
        × (find_pool_of instance_id pools ≡ some pool)
  unfolding find_or_forget find_lke_node_pool judge_pools judge_lookup drop_node
  find_or_forget_found id instance_id s pool h =
      elim (Result-cases (e.api.list_node_pools p.cluster_id s.world).0) [
        | inl (pools, answered) ↦ (pools, answered, ground arith)
        | inr (x, failed) ↦ absurd (ground arith)
      ]

  find_or_forget-events :
      (id : Text) (instance_id : ℤ) (s : State e)
      → (find_or_forget e p id instance_id s).1.events
        ≡ called list_node_pools (succeeded (e.api.list_node_pools p.cluster_id s.world).0)
          ∷ s.events
  unfolding find_or_forget find_lke_node_pool judge_pools judge_lookup drop_node
  find_or_forget-events id instance_id s = ground arith

  -- Under the lock, Delete lists the pools once more and then makes at most one other request. It
  -- removes a pool only if that listing has it as a pool that Karpenter manages, with a node of the
  -- instance and no other node, and it removes a node only if it is the instance's, in such a pool
  -- with more nodes.
  pub delete_locked-DeleteEvents :
      (id : Text) (instance_id : ℤ) (s : State e)
      → DeleteEvents instance_id
          (e.api.list_node_pools p.cluster_id s.world).0
          (called list_node_pools (succeeded (e.api.list_node_pools p.cluster_id s.world).0)
            ∷ s.events)
          (delete_locked e p id instance_id s).1.events
  unfolding delete_locked
  delete_locked-DeleteEvents id instance_id s =
      elim (Outcome-cases (find_or_forget e p id instance_id s).0) [
        | inl (pool, found) ↦
            let (pools, answered, hosted) = find_or_forget_found id instance_id s pool found in
            rw (found, answered)
              (subst
                (λ evs.
                  DeleteEvents instance_id (ok pools) evs
                    (remove_from e p id instance_id pool
                      (find_or_forget e p id instance_id s).1).1.events)
                (find_or_forget-events id instance_id s
                  ∙ ap (λ a. called list_node_pools (succeeded a) ∷ s.events) answered)
                (remove_from-events id instance_id pools pool
                  (find_or_forget e p id instance_id s).1
                  (find_pool_of-HostFound instance_id pools pool hosted)))
        | inr (inl (x, failed)) ↦ rw (failed, find_or_forget-events) listed_only
        | inr (inr stuck) ↦ rw (stuck, find_or_forget-events) listed_only
      ]
