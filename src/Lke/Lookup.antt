-- ===== src/Lke/Lookup.antt =====
-- The instance that a claim has already, and the instance type of a new one: the first steps of Create.
use karpenter_provider_linod.Base.{Option, none, some, List, [], ◌∷◌, if◌then◌else◌, Text, itoa}
use karpenter_provider_linod.Errors.{
  errors_is, instance_not_found, message, sentinel, wrap, insufficient_capacity,
}
use karpenter_provider_linod.Tags.Claim.{node_claim_tag}
use karpenter_provider_linod.Objects.{NodeClaim, LinodeInstance, Instance, new_lke_instance}
use karpenter_provider_linod.Selection.{filter_instance_types, cheapest_instance_type}
use karpenter_provider_linod.Lke.State.{
  Exec, ◌>>=◌, ◌>>◌, pure, raise, attempt, request, cache_node, Result, Env, Provider, ok, err,
  list_instances,
}

module _ (e : Env) (p : Provider) where
  unfoldable pub cached_or : LinodeInstance → Option Instance → Exec e Instance
  cached_or i (some cached) = pure cached
  cached_or i none = do
    let inst = new_lke_instance i.id i.type i.tags p.region i.created
    cache_node e inst
    pure inst

  -- hydrateInstanceFromLinode
  unfoldable pub hydrate_instance_from_linode : LinodeInstance → Exec e Instance
  hydrate_instance_from_linode i s =
      cached_or i (e.node_ops.get s.node_cache (e.now s.world) (itoa i.id)) s

  unfoldable pub first_instance : List LinodeInstance → Exec e LinodeInstance
  first_instance [] = raise (wrap (sentinel instance_not_found))
  first_instance (i ∷ is) = pure i

  -- LookupInstanceByTag of pkg/utils/utils.go
  unfoldable pub lookup_instance_by_tag : Text → Exec e LinodeInstance
  lookup_instance_by_tag tag = do
    instances ← request (list_instances (tag ∷ [])) (e.api.list_instances (tag ∷ []))
    first_instance instances

  unfoldable pub lookup_existing_instance : NodeClaim → Exec e Instance
  lookup_existing_instance node_claim = do
    i ← lookup_instance_by_tag (node_claim_tag node_claim.name)
    hydrate_instance_from_linode i

  unfoldable pub unless_missing : Result Instance → Exec e (Option Instance)
  unless_missing (ok i) = pure (some i)
  unless_missing (err x) = if errors_is instance_not_found x then pure none else raise x

  -- `if err != nil && !errors.Is(err, utils.ErrInstanceNotFound)` after lookupExistingInstance
  unfoldable pub existing_instance : NodeClaim → Exec e (Option Instance)
  existing_instance node_claim = do
    found ← attempt (lookup_existing_instance node_claim)
    unless_missing found

  -- resolveCreateInstanceType
  unfoldable pub resolve_create_instance_type :
      List e.catalog.InstanceType → NodeClaim → Exec e Text
  resolve_create_instance_type types node_claim =
      elim (filter_instance_types e.catalog node_claim types) [
        | none ↦ raise (insufficient_capacity message)
        | some kept ↦ elim (cheapest_instance_type e.catalog kept) [
          | none ↦ raise (insufficient_capacity message)
          | some cheapest ↦ pure (e.catalog.name cheapest)
        ]
      ]
