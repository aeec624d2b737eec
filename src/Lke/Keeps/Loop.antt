-- ===== src/Lke/Keeps/Loop.antt =====
-- What the loop of Create and what surrounds it keep, given that each attempt keeps it.
use karpenter_provider_linod.Base.{
  ℕ, zero, suc, inl, inr, false, ◌||◌, Option, none, some, ltb, Bool-cases, Option-cases, Text,
  Dict, ◌≡◌, sym, subst, List, arith,
}
use karpenter_provider_linod.Errors.{
  errors_is, errors_as, as_pool_request, is_retryable_error, is_retryable_create_error, Err,
  no_claimable_instance,
}
use karpenter_provider_linod.Objects.{node_pool_label_key, at, NodeClaim, NodeClass, Instance}
use karpenter_provider_linod.Backoff.{BackoffTracker}
use karpenter_provider_linod.Lke.State.{
  Exec, modify, sleep_for, Env, Provider, State, Outcome, done, fail, running, Outcome-cases, ◌>>=◌,
}
use karpenter_provider_linod.Lke.Pools.{make_pool_key}
use karpenter_provider_linod.Lke.Lookup.{existing_instance, resolve_create_instance_type}
use karpenter_provider_linod.Lke.Create.{
  attempt_create, clear_pool_backoff, observe_pool_attempt, record_pool_failure, Ending,
  after_attempt, create_loop, with_deferred, create_in_pool, unless_backing_off, create_rounds,
  return_or_create, create_tagged, unless_invalid, create,
}
use karpenter_provider_linod.Lke.Keeps.{Keeps, Reading}
use karpenter_provider_linod.Lke.Keeps.Create.{existing_instance-Keeps}

module _ (e : Env) (p : Provider) (P : State e → Type 0) (r : Reading e P)
    (naps : (d : ℕ) → Keeps P (modify λ s. record s { world = e.sleep d s.world }))
    (backs_off : (b : BackoffTracker e.BackoffCache)
      → Keeps P (modify λ s. record s { pool_backoff = b })) where
  observe_pool_attempt-Keeps :
      (key : Text) (o : Option Err) (s : State e) → P s → P (observe_pool_attempt e p key o s).1
  unfolding observe_pool_attempt clear_pool_backoff
  observe_pool_attempt-Keeps key none s h = backs_off _ s h
  observe_pool_attempt-Keeps key (some x) s h = elim (Option-cases (errors_as as_pool_request x)) [
    | inr (cause, found) ↦ rw (observe_pool_attempt, found) h
    | inl absent ↦ elim (Bool-cases (errors_is no_claimable_instance x)) [
      | inl same ↦ rw (observe_pool_attempt, absent, same) (backs_off _ s h)
      | inr other' ↦ rw (observe_pool_attempt, absent, other') h
    ]
  ]

  record_pool_failure-Keeps :
      (key : Text) (o : Option Err) (s : State e) → P s → P (record_pool_failure e p key o s)
  unfolding record_pool_failure
  record_pool_failure-Keeps key none s h = h
  record_pool_failure-Keeps key (some x) s h = elim (Bool-cases (is_retryable_error x)) [
    | inl again ↦ rw again (backs_off _ s h)
    | inr never ↦ rw never h
  ]

  with_deferred-Keeps : (key : Text) (en : Ending e p) → P en.1 → P (with_deferred e p key en).1
  unfolding with_deferred
  with_deferred-Keeps key ((r, pool_err), s) h = record_pool_failure-Keeps key pool_err s h

  unless_backing_off-Keeps :
      (key : Text) (o : Option Err) (en : Ending e p) (s : State e)
      → P s
      → P en.1
      → P (unless_backing_off e p key o en s).1
  unfolding unless_backing_off
  unless_backing_off-Keeps key (some x) en s h k = h
  unless_backing_off-Keeps key none en s h k = with_deferred-Keeps key en k

  sleep_for-Keeps : (d : ℕ) (s : State e) → P s → P (sleep_for e d s).1
  unfolding sleep_for
  sleep_for-Keeps d s h = naps d s h

  after_attempt-Keeps :
      (key : Text) (again : Err → Option Err → State e → Ending e p) (last : Err)
      (o : Outcome Instance × State e)
      → ((x : Err) (pool_err : Option Err) (s : State e) → P s → P (again x pool_err s).1)
      → P o.1
      → P (after_attempt e p key again last o).1
  unfolding after_attempt
  after_attempt-Keeps key again last (running, s) ih h = h
  after_attempt-Keeps key again last (done i, s) ih h = observe_pool_attempt-Keeps key none s h
  after_attempt-Keeps key again last (fail x, s) ih h =
      let seen = observe_pool_attempt-Keeps key (some x) s h in
      elim (Bool-cases (is_retryable_create_error x || is_retryable_error x)) [
        | inl retried ↦ rw retried (ih _ _ _ (sleep_for-Keeps p.retry_delay _ seen))
        | inr final ↦ rw final seen
      ]

  create_loop-Keeps :
      (verify_fuel fuel : ℕ) (key : Text) (body : ℕ → Exec e Instance) (deadline : ℕ) (last : Err)
      (pool_err : Option Err) (s : State e)
      → Keeps P (body verify_fuel)
      → P s
      → P (create_loop e p verify_fuel fuel key body deadline last pool_err s).1
  unfolding create_loop
  create_loop-Keeps verify_fuel zero key body deadline last pool_err s b h = h
  create_loop-Keeps verify_fuel (suc fuel) key body deadline last pool_err s b h =
      let round =
        after_attempt-Keeps key (create_loop e p verify_fuel fuel key body deadline) last
          (body verify_fuel s)
          (λ x o s'. create_loop-Keeps verify_fuel fuel key body deadline x o s' b) (b s h) in
      elim (Bool-cases (ltb (e.now s.world) deadline)) [
        | inr late ↦ rw late h
        | inl early ↦ elim (Option-cases (e.ctx_err s.world)) [
          | inl live ↦ rw (early, live) round
          | inr (x, cancelled) ↦ rw (early, cancelled) h
        ]
      ]

  -- Create, after its instance type is known
  pub create_in_pool-Keeps :
      (c : NodeClass) (claim : NodeClaim) (tags : Dict Text) (fuel : ℕ) (type : Text) (s : State e)
      → Keeps P (
          attempt_create e p fuel c claim tags type
            (make_pool_key (at claim.labels node_pool_label_key) type))
      → P s
      → P (record s { created_pool = false; scaled_once = false })
      → P (create_in_pool e p fuel c claim tags type s).1
  unfolding create_in_pool create_rounds
  create_in_pool-Keeps c claim tags fuel type s attempts h k =
      let key = make_pool_key (at claim.labels node_pool_label_key) type in
      unless_backing_off-Keeps key _ _ s h (create_loop-Keeps fuel fuel key _ _ _ _ _ attempts k)

-- From Q to P, where the steps before the loop keep Q.
module _ (e : Env) (p : Provider) (Q P : State e → Type 0) (r : Reading e Q)
    (weaken : (s : State e) → Q s → P s) (c : NodeClass) (claim : NodeClaim) (tags : Dict Text)
    (types : List e.catalog.InstanceType) (begun : State e)
    (creates : (fuel : ℕ) (type : Text) (s : State e)
      → (resolve_create_instance_type e p types claim begun).0 ≡ done type
      → Q s
      → P (create_in_pool e p fuel c claim tags type s).1) where
  return_or_create-from :
      (fuel : ℕ) (type : Text) (o : Option Instance) (s : State e)
      → (resolve_create_instance_type e p types claim begun).0 ≡ done type
      → Q s
      → P (return_or_create e p fuel c claim tags type o s).1
  unfolding return_or_create
  return_or_create-from fuel type (some existing) s chosen h = weaken s h
  return_or_create-from fuel type none s chosen h = creates fuel type s chosen h

  create_with_type-from :
      (fuel : ℕ) (type : Text) (s : State e)
      → (resolve_create_instance_type e p types claim begun).0 ≡ done type
      → Q s
      → P ((existing_instance e p claim >>= return_or_create e p fuel c claim tags type) s).1
  create_with_type-from fuel type s chosen h =
      let kept = existing_instance-Keeps e p Q r claim s h in
      elim (Outcome-cases (existing_instance e p claim s).0) [
        | inl (o, found) ↦ rw found (return_or_create-from fuel type o _ chosen kept)
        | inr (inl (x, failed)) ↦ rw failed (weaken _ kept)
        | inr (inr stuck) ↦ rw stuck (weaken _ kept)
      ]

  resolve_create_instance_type-state :
      (resolve_create_instance_type e p types claim begun).1 ≡ begun
  unfolding resolve_create_instance_type
  resolve_create_instance_type-state = ground arith

  create_tagged-from : (fuel : ℕ) → Q begun → P (create_tagged e p fuel c claim tags types begun).1
  unfolding create_tagged
  create_tagged-from fuel h =
      let q = subst Q (sym resolve_create_instance_type-state) h in
      elim (Outcome-cases (resolve_create_instance_type e p types claim begun).0) [
        | inl (type, chosen) ↦ rw chosen (create_with_type-from fuel type _ chosen q)
        | inr (inl (x, failed)) ↦ rw failed (weaken _ q)
        | inr (inr stuck) ↦ rw stuck (weaken _ q)
      ]

  unless_invalid-from :
      (o : Option (List Text)) (rest : Exec e Instance) (s : State e)
      → Q s
      → P (rest s).1
      → P (unless_invalid e p o rest s).1
  unfolding unless_invalid
  unless_invalid-from (some _) rest s h k = weaken s h
  unless_invalid-from none rest s h k = k

  pub create-from : (fuel : ℕ) → Q begun → P (create e p fuel c claim tags types begun).1
  unfolding create
  create-from fuel h = unless_invalid-from _ _ begun h (create_tagged-from fuel h)
