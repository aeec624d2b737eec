-- ===== src/Lke/Query.antt =====
-- Get, List, CreateTags and UpdateTags, and the ephemeral taints that Karpenter is told of at start.
pub mod Taints
use karpenter_provider_linod.Base.{
  Bool, false, not, ◌&&◌, ◌||◌, Option, none, some, List, [], ◌∷◌, ◌++◌, if◌then◌else◌, Text, codes,
  text_eq, Dict, ℤ, int_eq, itoa, atoi,
}
use karpenter_provider_linod.Errors.{is_not_found, Err, message, wrap, node_claim_not_found}
use karpenter_provider_linod.Tags.{map_to_tag_list, dedupe_tags}
use karpenter_provider_linod.Objects.{
  label_lke_managed, new_lke_instance, Taint, LinodeInstance, Instance, Tier,
}
use karpenter_provider_linod.Lke.State.{
  Exec, ◌>>=◌, ◌>>◌, pure, raise, attempt, map_fail, request, cache_node, drop_node, Result, Env,
  Provider, ok, err, list_instances, get_instance, update_instance, done,
}
use karpenter_provider_linod.Lke.Pools.{is_enterprise}

same_taint : Taint → Taint → Bool
same_taint known t =
    text_eq known.key t.key && text_eq known.value t.value && text_eq known.effect t.effect

-- slices.ContainsFunc over the known taints
unfoldable pub knows_taint : Taint → List Taint → Bool
unfolding same_taint
knows_taint t [] = false
knows_taint t (k ∷ ks) = same_taint k t || knows_taint t ks

-- registerKnownEphemeralTaints on scheduling.KnownEphemeralTaints
unfoldable pub register_taints : List Taint → List Taint → List Taint
unfolding knows_taint
register_taints [] known = known
register_taints (t ∷ taints) known =
    register_taints taints (if knows_taint t known then known else known ++ t ∷ [])

abbrev no_schedule : Text → Text → Taint
no_schedule key value = record { key = key; value = value; effect = codes "NoSchedule" }

abbrev pub common_known_ephemeral_taints : List Taint
common_known_ephemeral_taints =
    no_schedule (codes "lke.linode.com/labels-taints") (codes "waiting")
    ∷ no_schedule (codes "node.kubernetes.io/network-unavailable") []
    ∷ []

abbrev pub enterprise_known_ephemeral_taints : List Taint
enterprise_known_ephemeral_taints =
    no_schedule (codes "node.cilium.io/agent-not-ready") []
    ∷ no_schedule (codes "node.cluster.x-k8s.io/uninitialized") []
    ∷ []

-- RegisterKnownEphemeralTaints
unfoldable pub register_known_ephemeral_taints : Tier → List Taint → List Taint
unfolding register_taints
register_known_ephemeral_taints tier known =
    let common = register_taints common_known_ephemeral_taints known in
    if is_enterprise tier then register_taints enterprise_known_ephemeral_taints common else common

-- keep the entries of the provider's own cluster
unfoldable pub in_cluster : ℤ → List LinodeInstance → List LinodeInstance
in_cluster cluster_id [] = []
in_cluster cluster_id (i ∷ is) =
    let rest = in_cluster cluster_id is in
    if not (int_eq cluster_id i.lke_cluster_id) then rest else i ∷ rest

module _ (e : Env) (p : Provider) where
  unfoldable pub judge_fetched : Result LinodeInstance → Exec e Instance
  judge_fetched (err x) = raise (if is_not_found x then node_claim_not_found x else wrap x)
  judge_fetched (ok i) = do
    let inst = new_lke_instance i.id i.type i.tags p.region i.created
    cache_node e inst
    pure inst

  unfoldable pub fetch : Option ℤ → Exec e Instance
  fetch none = raise (node_claim_not_found (wrap message))
  fetch (some instance_id) = do
    found ← attempt (request (get_instance instance_id) (e.api.get_instance instance_id))
    judge_fetched found

  -- Get, with SkipCache or without
  unfoldable pub get : Bool → Text → Exec e Instance
  get skip_cache id s =
      if skip_cache
      then fetch (atoi id) s
      else elim (e.node_ops.get s.node_cache (e.now s.world) id) [
        | some cached ↦ (done cached, s)
        | none ↦ fetch (atoi id) s
      ]

  unfoldable pub list_filter : List Text
  list_filter =
      if is_enterprise p.cluster_tier
      then (label_lke_managed ++ codes "=true") ∷ (codes "lke" ++ itoa p.cluster_id) ∷ []
      else (label_lke_managed ++ codes "=true") ∷ []

  -- the loop of List over the instances of the cluster
  unfoldable pub cache_all : List LinodeInstance → Exec e (List Instance)
  cache_all [] = pure []
  cache_all (i ∷ is) = do
    let inst = new_lke_instance i.id i.type i.tags p.region i.created
    cache_node e inst
    rest ← cache_all is
    pure (inst ∷ rest)

  -- List
  unfoldable pub list : Exec e (List Instance)
  list = do
    instances ← request (list_instances list_filter) (e.api.list_instances list_filter)
    cache_all (in_cluster p.cluster_id instances)

  abbrev not_found_or : (Err → Err) → (Err → Err) → Err → Err
  not_found_or missing otherwise x = if is_not_found x then missing x else otherwise x

  abbrev mapping : {A : Type 0} → (Err → Err) → Exec e A → Exec e A
  mapping f m s = (map_fail f (m s).0, (m s).1)

  unfoldable pub create_tags_on : Option ℤ → Dict Text → Exec e (Unit {0})
  create_tags_on none tags = raise (wrap message)
  create_tags_on (some instance_id) tags = do
    i ←
        mapping (not_found_or (λ x. node_claim_not_found (wrap x)) wrap)
          (request (get_instance instance_id) (e.api.get_instance instance_id))
    let new_tags = dedupe_tags (i.tags ++ map_to_tag_list tags)
    mapping (not_found_or (λ x. node_claim_not_found (wrap x)) (λ x. x)) (
        request (update_instance instance_id new_tags) (e.api.update_instance instance_id new_tags))
    pure tt

  -- CreateTags
  unfoldable pub create_tags : Text → Dict Text → Exec e (Unit {0})
  create_tags id tags = create_tags_on (atoi id) tags

  unfoldable pub update_tags_on : Text → Option ℤ → List Text → Exec e (Unit {0})
  update_tags_on id none tags = raise (wrap message)
  update_tags_on id (some instance_id) tags = do
    mapping (not_found_or (λ x. node_claim_not_found (wrap x)) wrap)
        (request (update_instance instance_id tags) (e.api.update_instance instance_id tags))
    drop_node e id

  -- UpdateTags
  unfoldable pub update_tags : Text → List Text → Exec e (Unit {0})
  update_tags id tags = update_tags_on id (atoi id) tags
