-- ===== src/Lke/Keeps/Create.antt =====
-- What the attempts of Create keep, given that the scaling of a pool keeps it.
use karpenter_provider_linod.Base.{ℕ, not, Option, none, some, List, [], ◌∷◌, Text, Dict}
use karpenter_provider_linod.Errors.{errors_is, is_retryable_create_error, instance_not_found}
use karpenter_provider_linod.Objects.{NodeClaim, NodeClass, LinodeInstance, Instance, NodePool}
use karpenter_provider_linod.Lke.State.{
  pure, raise, attempt, request, cache_node, Result, Env, Provider, State, ok, err,
}
use karpenter_provider_linod.Lke.Pools.{find_or_create_pool}
use karpenter_provider_linod.Lke.Claims.{find_claimable_instance, claim_instance}
use karpenter_provider_linod.Lke.Lookup.{
  cached_or, hydrate_instance_from_linode, first_instance, lookup_instance_by_tag,
  lookup_existing_instance, unless_missing, existing_instance,
}
use karpenter_provider_linod.Lke.Create.{
  failing_as, scale_pool, claim_found, claim_or_scale, recover_or_claim, attempt_locked,
}
use karpenter_provider_linod.Lke.Keeps.{Keeps, Keeps-bind, Keeps-then, Keeps-if, Reading, Writing}
use karpenter_provider_linod.Lke.Keeps.Pools.{cache_node-Keeps, find_or_create_pool-Keeps}
use karpenter_provider_linod.Lke.Keeps.Claims.{find_claimable_instance-Keeps, claim_instance-Keeps}

module _ (e : Env) (p : Provider) (P : State e → Type 0) (r : Reading e P) where
  cached_or-Keeps : (i : LinodeInstance) (o : Option Instance) → Keeps P (cached_or e p i o)
  unfolding cached_or
  cached_or-Keeps i (some cached) = λ s h. h
  cached_or-Keeps i none =
      Keeps-then P (cache_node e _) (pure _) (cache_node-Keeps e p P r _) (λ s h. h)

  hydrate-Keeps : (i : LinodeInstance) → Keeps P (hydrate_instance_from_linode e p i)
  unfolding hydrate_instance_from_linode
  hydrate-Keeps i = λ s h. cached_or-Keeps i _ s h

  first_instance-Keeps : (is : List LinodeInstance) → Keeps P (first_instance e p is)
  unfolding first_instance
  first_instance-Keeps [] = λ s h. h
  first_instance-Keeps (i ∷ is) = λ s h. h

  lookup_instance_by_tag-Keeps : (tag : Text) → Keeps P (lookup_instance_by_tag e p tag)
  unfolding lookup_instance_by_tag
  lookup_instance_by_tag-Keeps tag =
      Keeps-bind P (request _ _) _ (r.lists_instances (tag ∷ [])) first_instance-Keeps

  lookup_existing_instance-Keeps :
      (claim : NodeClaim) → Keeps P (lookup_existing_instance e p claim)
  unfolding lookup_existing_instance
  lookup_existing_instance-Keeps claim =
      Keeps-bind P (lookup_instance_by_tag e p _) _ (lookup_instance_by_tag-Keeps _) hydrate-Keeps

  unless_missing-Keeps : (a : Result Instance) → Keeps P (unless_missing e p a)
  unfolding unless_missing
  unless_missing-Keeps (ok i) = λ s h. h
  unless_missing-Keeps (err x) =
      Keeps-if P (errors_is instance_not_found x) (pure none) (raise x) (λ s h. h) (λ s h. h)

  pub existing_instance-Keeps : (claim : NodeClaim) → Keeps P (existing_instance e p claim)
  unfolding existing_instance
  existing_instance-Keeps claim =
      Keeps-bind P (attempt (lookup_existing_instance e p claim)) _
        (lookup_existing_instance-Keeps claim) unless_missing-Keeps

module _ (e : Env) (p : Provider) (P : State e → Type 0) (w : Writing e P)
    (scales : (type : Text) (pool : NodePool) → Keeps P (scale_pool e p type pool)) where
  claim_found-Keeps :
      (fuel : ℕ) (c : NodeClass) (claim : NodeClaim) (pool : NodePool) (i : LinodeInstance)
      → Keeps P (claim_found e p fuel c claim pool i)
  unfolding claim_found
  claim_found-Keeps fuel c claim pool i =
      Keeps-bind P (failing_as e p _ (claim_instance e p fuel i claim c pool)) _
        (claim_instance-Keeps e p P w fuel i claim c pool)
        (λ claimed.
          Keeps-then P (cache_node e _) (pure _) (cache_node-Keeps e p P w.reading _) (λ s h. h))

  claim_or_scale-Keeps :
      (fuel : ℕ) (c : NodeClass) (claim : NodeClaim) (type : Text) (pool : NodePool)
      (a : Result LinodeInstance)
      → Keeps P (claim_or_scale e p fuel c claim type pool a)
  unfolding claim_or_scale
  claim_or_scale-Keeps fuel c claim type pool (ok i) = claim_found-Keeps fuel c claim pool i
  claim_or_scale-Keeps fuel c claim type pool (err x) =
      Keeps-if P (not (is_retryable_create_error x)) (raise x) _ (λ s h. h) (scales type pool)

  recover_or_claim-Keeps :
      (fuel : ℕ) (c : NodeClass) (claim : NodeClaim) (tags : Dict Text) (type : Text)
      (o : Option Instance)
      → Keeps P (recover_or_claim e p fuel c claim tags type o)
  unfolding recover_or_claim
  recover_or_claim-Keeps fuel c claim tags type (some existing) = λ s h. h
  recover_or_claim-Keeps fuel c claim tags type none =
      Keeps-bind P (failing_as e p _ (find_or_create_pool e p c claim tags type)) _
        (find_or_create_pool-Keeps e p P w c claim tags type)
        (λ pool.
          Keeps-bind P (attempt (find_claimable_instance e p pool)) _
            (find_claimable_instance-Keeps e p P w.reading pool)
            (claim_or_scale-Keeps fuel c claim type pool))

  pub attempt_locked-Keeps :
      (fuel : ℕ) (c : NodeClass) (claim : NodeClaim) (tags : Dict Text) (type : Text)
      → Keeps P (attempt_locked e p fuel c claim tags type)
  unfolding attempt_locked
  attempt_locked-Keeps fuel c claim tags type =
      Keeps-bind P (existing_instance e p claim) _ (existing_instance-Keeps e p P w.reading claim)
        (recover_or_claim-Keeps fuel c claim tags type)
