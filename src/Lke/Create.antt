-- ===== src/Lke/Create.antt =====
-- Create: its attempts under the pool lock, their retries until the deadline, and the backoff.
pub mod Scaling
use karpenter_provider_linod.Base.{
  ℕ, zero, suc, ◌+◌, true, false, not, ◌||◌, Option, none, some, List, ltb, if◌then◌else◌, Text,
  Dict,
}
use karpenter_provider_linod.Errors.{
  errors_is, errors_as, as_pool_request, is_insufficient_capacity, is_retryable_error,
  is_retryable_create_error, Err, no_claimable_instance, claim_failed, pool_scale_failed,
  create_timeout, node_pool_tag_validation_failed, node_pool_backing_off, node_pool_provisioning,
  node_pool_creation_failed, node_pool_scale_failed, message, sentinel, wrap, wrap_both,
  pool_request, create_error,
}
use karpenter_provider_linod.Tags.{map_to_tag_list}
use karpenter_provider_linod.Tags.Valid.{validate_tag_lengths}
use karpenter_provider_linod.Objects.{
  node_pool_label_key, at, NodeClaim, NodeClass, LinodeInstance, Instance, NodePool,
  new_lke_instance, PoolUpdateOptions,
}
use karpenter_provider_linod.Backoff.{check, record_failure, clear}
use karpenter_provider_linod.Lke.State.{
  Exec, ◌>>=◌, ◌>>◌, pure, raise, attempt, map_fail, request, modify, with_pool_lock, cache_node,
  sleep_for, Result, Env, Provider, State, Outcome, ok, err, update_node_pool, done, fail, running,
}
use karpenter_provider_linod.Lke.Pools.{make_pool_key, check_plan_availability, find_or_create_pool}
use karpenter_provider_linod.Lke.Lookup.{existing_instance, resolve_create_instance_type}
use karpenter_provider_linod.Lke.Claims.{find_claimable_instance, claim_instance}

module _ (e : Env) (p : Provider) where
  abbrev pool_failure : Err → Err
  pool_failure x =
      if is_insufficient_capacity x
      then x
      else create_error node_pool_creation_failed (pool_request x)

  abbrev pub failing_as : {A : Type 0} → (Err → Err) → Exec e A → Exec e A
  failing_as f m s = (map_fail f (m s).0, (m s).1)

  unfoldable pub judge_scaled : Result NodePool → Exec e Instance
  judge_scaled (err x) =
      if not (is_retryable_error x)
      then raise (create_error node_pool_scale_failed (wrap x))
      else raise (pool_request (wrap_both (sentinel pool_scale_failed) x))
  judge_scaled (ok _) = do
    modify λ s. record s { scaled_once = true }
    raise (sentinel no_claimable_instance)

  unfoldable pub request_scale : Text → NodePool → Exec e Instance
  request_scale instance_type pool = do
    check_plan_availability e p instance_type
    let options : PoolUpdateOptions = record {
      count = some (pool.count + 1);
      k8s_version = none;
      update_strategy = none;
    }
    scaled ← attempt (
        request (update_node_pool pool.id options)
          (e.api.update_node_pool p.cluster_id pool.id options))
    judge_scaled scaled

  -- the last steps of an attempt: one more node for the pool, once for a Create
  unfoldable pub scale_pool : Text → NodePool → Exec e Instance
  scale_pool instance_type pool s =
      let scale = request_scale instance_type pool s in
      if s.created_pool || s.scaled_once then (fail (sentinel no_claimable_instance), s) else scale

  unfoldable pub claim_found :
      ℕ → NodeClass → NodeClaim → NodePool → LinodeInstance → Exec e Instance
  claim_found fuel node_class node_claim pool i = do
    claimed ←
        failing_as (wrap_both (sentinel claim_failed))
          (claim_instance e p fuel i node_claim node_class pool)
    let inst = new_lke_instance claimed.id pool.type claimed.tags p.region claimed.created
    cache_node e inst
    pure inst

  unfoldable pub claim_or_scale :
      ℕ → NodeClass → NodeClaim → Text → NodePool → Result LinodeInstance → Exec e Instance
  claim_or_scale fuel node_class node_claim instance_type pool (ok i) =
      claim_found fuel node_class node_claim pool i
  claim_or_scale fuel node_class node_claim instance_type pool (err x) =
      if not (is_retryable_create_error x) then raise x else scale_pool instance_type pool

  unfoldable pub recover_or_claim :
      ℕ → NodeClass → NodeClaim → Dict Text → Text → Option Instance → Exec e Instance
  recover_or_claim fuel node_class node_claim tags instance_type (some existing) = pure existing
  recover_or_claim fuel node_class node_claim tags instance_type none = do
    pool ←
        failing_as pool_failure (find_or_create_pool e p node_class node_claim tags instance_type)
    found ← attempt (find_claimable_instance e p pool)
    claim_or_scale fuel node_class node_claim instance_type pool found

  -- the body of attemptCreate, under the lock
  unfoldable pub attempt_locked : ℕ → NodeClass → NodeClaim → Dict Text → Text → Exec e Instance
  attempt_locked fuel node_class node_claim tags instance_type = do
    existing ← existing_instance e p node_claim
    recover_or_claim fuel node_class node_claim tags instance_type existing

  -- attemptCreate; `fuel` is for the loop of verifyTagsApplied
  unfoldable pub attempt_create :
      ℕ → NodeClass → NodeClaim → Dict Text → Text → Text → Exec e Instance
  attempt_create fuel node_class node_claim tags instance_type pool_key =
      with_pool_lock pool_key (attempt_locked fuel node_class node_claim tags instance_type)

  unfoldable pub clear_pool_backoff : Text → State e → State e
  clear_pool_backoff pool_key s = record s {
    pool_backoff = clear e.backoff_ops s.pool_backoff pool_key;
  }

  -- observePoolAttempt on an attempt's error: the pool API failure behind it, if any
  unfoldable pub observe_pool_attempt : Text → Option Err → State e → Option Err × State e
  observe_pool_attempt pool_key none s = (none, clear_pool_backoff pool_key s)
  observe_pool_attempt pool_key (some x) s = elim (errors_as as_pool_request x) [
    | some cause ↦ (some cause, s)
    | none ↦
        if errors_is no_claimable_instance x
        then (none, clear_pool_backoff pool_key s)
        else (none, s)
  ]

  -- recordPoolFailure, which Create defers
  unfoldable pub record_pool_failure : Text → Option Err → State e → State e
  record_pool_failure pool_key none s = s
  record_pool_failure pool_key (some x) s =
      if is_retryable_error x
      then record s {
        pool_backoff = record_failure e.backoff_ops s.pool_backoff (e.now s.world) pool_key x;
      }
      else s

  -- lastRetryErr after a failed attempt
  abbrev last_retry : Err → Err → Err
  last_retry last x = if not (errors_is no_claimable_instance x) then x else last

  abbrev timeout_error : Err → Err
  timeout_error last =
      create_error node_pool_provisioning (wrap_both (sentinel create_timeout) last)

  -- how the loop of Create ends: its result, and poolErr as the deferred call sees it
  abbrev pub Ending : Type 0
  Ending = (Outcome Instance × Option Err) × State e

  unfoldable pub after_attempt :
      Text → (Err → Option Err → State e → Ending) → Err → Outcome Instance × State e → Ending
  after_attempt pool_key again last (running, s) = ((running, none), s)
  after_attempt pool_key again last (done i, s) =
      let (pool_err, s') = observe_pool_attempt pool_key none s in ((done i, pool_err), s')
  after_attempt pool_key again last (fail x, s) =
      let (pool_err, s') = observe_pool_attempt pool_key (some x) s in
      if is_retryable_create_error x || is_retryable_error x
      then again (last_retry last x) pool_err (sleep_for e p.retry_delay s').1
      else ((fail x, pool_err), s')

  -- the loop of Create, in at most `fuel` rounds
  unfoldable pub create_loop :
      ℕ → ℕ → Text → (ℕ → Exec e Instance) → ℕ → Err → Option Err → State e → Ending
  create_loop verify_fuel zero pool_key body deadline last pool_err s = ((running, pool_err), s)
  create_loop verify_fuel (suc fuel) pool_key body deadline last pool_err s =
      let round =
        after_attempt pool_key (create_loop verify_fuel fuel pool_key body deadline) last
          (body verify_fuel s) in
      if not (ltb (e.now s.world) deadline)
      then ((fail (timeout_error last), pool_err), s)
      else elim (e.ctx_err s.world) [ some x ↦ ((fail x, pool_err), s) | none ↦ round ]

  unfoldable pub with_deferred : Text → Ending → Outcome Instance × State e
  with_deferred pool_key ((r, pool_err), s) = (r, record_pool_failure pool_key pool_err s)

  unfoldable pub unless_backing_off : Text → Option Err → Ending → Exec e Instance
  unless_backing_off pool_key (some x) loop s = (fail (create_error node_pool_backing_off x), s)
  unless_backing_off pool_key none loop s = with_deferred pool_key loop

  -- the loop of Create, from the state in which the call began
  unfoldable pub create_rounds :
      ℕ → NodeClass → NodeClaim → Dict Text → Text → Text → State e → Ending
  create_rounds fuel node_class node_claim tags instance_type pool_key s =
      create_loop fuel fuel pool_key
        (λ verify_fuel.
          attempt_create verify_fuel node_class node_claim tags instance_type pool_key)
        (e.now s.world + p.create_deadline) (sentinel no_claimable_instance) none
        (record s { created_pool = false; scaled_once = false })

  -- Create from its first reading of the backoff on
  unfoldable pub create_in_pool : ℕ → NodeClass → NodeClaim → Dict Text → Text → Exec e Instance
  create_in_pool fuel node_class node_claim tags instance_type s =
      let pool_key = make_pool_key (at node_claim.labels node_pool_label_key) instance_type in
      unless_backing_off pool_key (check e.backoff_ops s.pool_backoff (e.now s.world) pool_key)
        (create_rounds fuel node_class node_claim tags instance_type pool_key s) s

  unfoldable pub return_or_create :
      ℕ → NodeClass → NodeClaim → Dict Text → Text → Option Instance → Exec e Instance
  return_or_create fuel node_class node_claim tags instance_type (some existing) = pure existing
  return_or_create fuel node_class node_claim tags instance_type none =
      create_in_pool fuel node_class node_claim tags instance_type

  unfoldable pub create_tagged :
      ℕ → NodeClass → NodeClaim → Dict Text → List e.catalog.InstanceType → Exec e Instance
  create_tagged fuel node_class node_claim tags types = do
    instance_type ← resolve_create_instance_type e p types node_claim
    existing ← existing_instance e p node_claim
    return_or_create fuel node_class node_claim tags instance_type existing

  unfoldable pub unless_invalid : Option (List Text) → Exec e Instance → Exec e Instance
  unless_invalid (some _) rest = raise (create_error node_pool_tag_validation_failed message)
  unless_invalid none rest = rest

  -- Create; each of its loops has at most `fuel` rounds
  unfoldable pub create :
      ℕ → NodeClass → NodeClaim → Dict Text → List e.catalog.InstanceType → Exec e Instance
  create fuel node_class node_claim tags types =
      unless_invalid (validate_tag_lengths (map_to_tag_list tags))
        (create_tagged fuel node_class node_claim tags types)
