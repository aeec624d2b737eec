-- ===== src/Lke/Keeps/Claims.antt =====
-- What the search for an instance and its claim keep.
use karpenter_provider_linod.Base.{
  ℕ, zero, suc, Bool, true, false, ◌||◌, Option, none, some, List, [], ◌∷◌, ltb, Text, contains, ℤ,
  pos, int_eq, inl, inr, Bool-cases,
}
use karpenter_provider_linod.Errors.{is_not_found, is_retryable_error, Err}
use karpenter_provider_linod.Objects.{NodeClaim, NodeClass, LinodeInstance, PoolNode, NodePool}
use karpenter_provider_linod.Lke.State.{
  Exec, ◌>>◌, pure, raise, attempt, wrapped, request, sleep_for, Result, Env, Provider, State, ok,
  err,
}
use karpenter_provider_linod.Lke.Pools.{is_enterprise}
use karpenter_provider_linod.Lke.Claims.{
  is_claimed, judge_node, scan_nodes, find_claimable_instance_standard,
  find_claimable_instance_enterprise, find_claimable_instance, judge_verified, verify_round,
  verify_loop, verify_tags_applied, claim_instance, pick_unclaimed,
}
use karpenter_provider_linod.Lke.Keeps.{Keeps, Keeps-bind, Keeps-then, Keeps-if, Reading, Writing}

module _ (e : Env) (p : Provider) (P : State e → Type 0) (r : Reading e P) where
  judge_node-Keeps :
      (a : Result LinodeInstance) (rest : Exec e LinodeInstance)
      → Keeps P rest
      → Keeps P (judge_node e p a rest)
  unfolding judge_node
  judge_node-Keeps (err x) rest h = Keeps-if P (is_not_found x) rest (raise _) h (λ s k. k)
  judge_node-Keeps (ok i) rest h = Keeps-if P (is_claimed i.tags) rest (pure i) h (λ s k. k)

  scan_nodes-Keeps : (b : Bool) (nodes : List PoolNode) → Keeps P (scan_nodes e p b nodes)
  unfolding scan_nodes
  scan_nodes-Keeps b [] = λ s h. h
  scan_nodes-Keeps b (node ∷ nodes) =
      let waiting = scan_nodes-Keeps true nodes in
      let rest = scan_nodes-Keeps b nodes in
      Keeps-if P (int_eq node.instance_id (pos 0)) _ _ waiting (
        Keeps-bind P (attempt (request _ _)) _ (r.gets_instance node.instance_id)
          (λ a. judge_node-Keeps a _ rest))

  pick_unclaimed-Keeps : (o : Option LinodeInstance) → Keeps P (pick_unclaimed e p o)
  unfolding pick_unclaimed
  pick_unclaimed-Keeps none s h = h
  pick_unclaimed-Keeps (some i) s h = h

  pub find_claimable_instance-Keeps : (pool : NodePool) → Keeps P (find_claimable_instance e p pool)
  unfolding find_claimable_instance find_claimable_instance_standard
      find_claimable_instance_enterprise
  find_claimable_instance-Keeps pool =
      Keeps-if P (is_enterprise p.cluster_tier) _ _
        (Keeps-bind P (wrapped (request _ _)) _ (r.lists_instances _)
          (λ is. pick_unclaimed-Keeps _))
        (Keeps-bind P (wrapped (request _ _)) _ (r.gets_pool p.cluster_id pool.id)
          (λ fresh. scan_nodes-Keeps false fresh.linodes))

module _ (e : Env) (p : Provider) (P : State e → Type 0) (w : Writing e P) where
  nap-Keeps :
      {A : Type 0} (again : Exec e A) → Keeps P again → Keeps P (sleep_for e p.retry_delay >> again)
  unfolding sleep_for
  nap-Keeps again h = Keeps-then P (sleep_for e p.retry_delay) again (w.sleeps p.retry_delay) h

  judge_verified-Keeps :
      (expected : Text) (a : Result LinodeInstance) (again : Exec e LinodeInstance)
      → Keeps P again
      → Keeps P (judge_verified e p expected a again)
  unfolding judge_verified
  judge_verified-Keeps expected (err x) again h =
      Keeps-if P (is_retryable_error x || is_not_found x) _ (raise _) (nap-Keeps again h) (λ s k. k)
  judge_verified-Keeps expected (ok i) again h =
      Keeps-if P (contains expected i.tags) (pure i) _ (λ s k. k) (nap-Keeps again h)

  verify_round-Keeps :
      (id : ℤ) (expected : Text) (again : Exec e LinodeInstance) (o : Option Err)
      → Keeps P again
      → Keeps P (verify_round e p id expected again o)
  unfolding verify_round
  verify_round-Keeps id expected again (some x) h = λ s k. k
  verify_round-Keeps id expected again none h =
      Keeps-bind P (attempt (request _ _)) _ (w.reading.gets_instance id)
        (λ a. judge_verified-Keeps expected a again h)

  pub verify_loop-Keeps :
      (fuel deadline : ℕ) (id : ℤ) (expected : Text)
      → Keeps P (verify_loop e p fuel deadline id expected)
  unfolding verify_loop
  verify_loop-Keeps zero deadline id expected s h = h
  verify_loop-Keeps (suc fuel) deadline id expected s h =
      let ih = verify_loop-Keeps fuel deadline id expected in
      elim (Bool-cases (ltb (e.now s.world) deadline)) [
        | inl early ↦ rw early (
            verify_round-Keeps id expected (verify_loop e p fuel deadline id expected)
              (e.ctx_err s.world) ih s h)
        | inr late ↦ rw late h
      ]

  pub claim_instance-Keeps :
      (fuel : ℕ) (i : LinodeInstance) (claim : NodeClaim) (c : NodeClass) (pool : NodePool)
      → Keeps P (claim_instance e p fuel i claim c pool)
  unfolding claim_instance verify_tags_applied
  claim_instance-Keeps fuel i claim c pool =
      Keeps-then P (wrapped (request _ _)) (verify_tags_applied e p fuel i.id claim.name)
        (w.updates_instance i.id _) (λ s h. verify_loop-Keeps fuel _ i.id _ s h)
