-- ===== src/CloudProvider/Provider.antt =====
-- Create, List, Get, Delete and IsDrifted of the cloud provider.
use karpenter_provider_linod.Controllers.State.{
  Run, ◌>>=◌, ◌>>◌, ret, throw, wrapping, ignoring, is_kube_not_found, parse_instance_id, map_err,
}
use karpenter_provider_linod.Controllers.Drift.{
  annotation_hash, annotation_hash_version, are_static_fields_drifted,
}
use karpenter_provider_linod.Base.{
  ℕ, Bool, false, Option, none, some, List, [], ◌∷◌, ◌==◌, if◌then◌else◌, Text, Dict, lookup,
  insert,
}
use karpenter_provider_linod.Errors.{
  message, Err, wrap, create_error, insufficient_capacity, node_class_not_ready,
  node_class_readiness_unknown, instance_type_resolution_failed,
}
use karpenter_provider_linod.Objects.{node_pool_label_key, NodeClaim, Instance}
use karpenter_provider_linod.Tags.Cluster.{get_tags, get_tags_for_lke}
use karpenter_provider_linod.InstanceTypes.Store.{find_type}
use karpenter_provider_linod.InstanceTypes.Types.{InstanceType}
use karpenter_provider_linod.NodeClasses.Types.{
  class_hash, hash_version, Condition, LinodeNodeClass, is_true, is_false, is_unknown,
  ConditionStatus,
}
use karpenter_provider_linod.Lke.State.{Result, ok, err}
use karpenter_provider_linod.CloudProvider.Types.{ClaimPool, CloudClaim, Platform}
use karpenter_provider_linod.CloudProvider.Find.{
  instance_to_node_claim, resolve_named, resolve_node_class_from_node_claim,
  resolve_node_class_from_instance, resolve_instance_type_from_instance,
}

-- the error that a condition gives, `none` if the node class is ready
abbrev pub status_error : ConditionStatus → Bool → Option Err
status_error is_false observed = some (node_class_not_ready message)
status_error is_unknown observed = some (create_error node_class_readiness_unknown message)
status_error is_true observed = if observed then none else some (node_class_not_ready message)

module _ (p : Platform) where
  open p use {World}

  abbrev pub readiness_of : Option Condition → ℕ → Option Err
  readiness_of none generation =
      if p.nil_is_unknown then some (create_error node_class_readiness_unknown message) else none
  readiness_of (some condition) generation =
      status_error condition.status (condition.observed_generation == generation)

  unfoldable pub readiness_error : LinodeNodeClass → Option Err
  readiness_error node_class = readiness_of node_class.ready node_class.meta.generation

  -- how Create reports that it cannot resolve the node class
  abbrev pub unresolved : Err → Err
  unresolved x = if is_kube_not_found x then insufficient_capacity (wrap x) else wrap x

  abbrev pub failing_as : {A : Type 0} → (Err → Err) → Run World A → Run World A
  failing_as f m w = (map_err f (m w).0, (m w).1)

  abbrev tags_for : LinodeNodeClass → NodeClaim → Dict Text
  tags_for node_class node_claim =
      if p.lke_mode
      then get_tags_for_lke node_class.meta node_claim p.cluster_name
      else get_tags node_class.meta node_claim p.cluster_name

  -- the annotations of a new node claim
  abbrev pub with_hash : LinodeNodeClass → CloudClaim → CloudClaim
  with_hash node_class claim = record claim {
    annotations =
        insert annotation_hash_version hash_version
          (insert annotation_hash (class_hash p.spec_hash node_class) claim.annotations);
  }

  -- the end of Create, on what the node provider answers and the node class as it left it
  unfoldable pub made_claim :
      List InstanceType → (Result Instance × LinodeNodeClass) × World → Result CloudClaim × World
  unfolding find_type instance_to_node_claim insert class_hash
  made_claim types ((err x, node_class), w) = (err (wrap x), w)
  made_claim types ((ok i, node_class), w) =
      (ok (with_hash node_class (instance_to_node_claim p i (find_type i.type types) w)), w)

  -- Create from the node class on
  unfoldable pub create_ready : NodeClaim → LinodeNodeClass → Run World CloudClaim
  unfolding get_tags get_tags_for_lke made_claim
  create_ready node_claim node_class = do
    types ←
        failing_as (λ x. create_error instance_type_resolution_failed (wrap x))
          (p.list_types node_class)
    λ w.
        made_claim types
          (p.create_node node_class node_claim (tags_for node_class node_claim) types w)

  abbrev pub guarded : NodeClaim → LinodeNodeClass → Option Err → Run World CloudClaim
  guarded node_claim node_class none = create_ready node_claim node_class
  guarded node_claim node_class (some x) = throw x

  -- Create
  unfoldable pub create_claim : NodeClaim → Run World CloudClaim
  unfolding resolve_node_class_from_node_claim is_kube_not_found readiness_error create_ready
  create_claim node_claim = do
    node_class ← failing_as unresolved (resolve_node_class_from_node_claim p node_claim)
    guarded node_claim node_class (readiness_error node_class)

  -- the node class of an instance is only asked for
  abbrev ask_node_class : Instance → Run World (Unit {0})
  ask_node_class i =
      ignoring is_kube_not_found tt (wrapping (resolve_node_class_from_instance p i >> ret tt))

  -- the body of the loop of List, and the end of Get
  unfoldable pub claim_of_instance : Instance → Run World CloudClaim
  unfolding resolve_instance_type_from_instance resolve_node_class_from_instance is_kube_not_found
      instance_to_node_claim
  claim_of_instance i = do
    it ← wrapping (resolve_instance_type_from_instance p i)
    ask_node_class i
    λ w. (ok (instance_to_node_claim p i it w), w)

  unfoldable pub claims_of_instances : List Instance → Run World (List CloudClaim)
  unfolding claim_of_instance
  claims_of_instances [] = ret []
  claims_of_instances (i ∷ is) = do
    claim ← claim_of_instance i
    claims ← claims_of_instances is
    ret (claim ∷ claims)

  -- List
  unfoldable pub list_claims : Run World (List CloudClaim)
  unfolding claims_of_instances
  list_claims = do instances ← wrapping p.list_nodes; claims_of_instances instances

  abbrev pub get_parsed : Option Text → Run World CloudClaim
  get_parsed none = throw (wrap message)
  get_parsed (some id) = do i ← p.get_node id; claim_of_instance i

  -- Get
  unfoldable pub get_claim : Text → Run World CloudClaim
  unfolding claim_of_instance parse_instance_id
  get_claim provider_id = get_parsed (parse_instance_id provider_id)

  abbrev pub delete_parsed : Option Text → Run World (Unit {0})
  delete_parsed none = throw (wrap message)
  delete_parsed (some id) = p.delete_node id

  -- Delete
  unfoldable pub delete_claim : NodeClaim → Run World (Unit {0})
  unfolding parse_instance_id
  delete_claim node_claim = delete_parsed (parse_instance_id node_claim.provider_id)

  abbrev drift_of_class : NodeClaim → Option Text → Run World Bool
  drift_of_class node_claim none = ret false
  drift_of_class node_claim (some name) = ignoring is_kube_not_found false (
      wrapping (do
        node_class ← resolve_named p name
        ret (are_static_fields_drifted node_claim node_class.meta)))

  abbrev drift_of_pool : NodeClaim → Result ClaimPool → Run World Bool
  drift_of_pool node_claim (ok pool) = drift_of_class node_claim pool.node_class_ref
  drift_of_pool node_claim (err x) = if is_kube_not_found x then ret false else throw x

  abbrev drift_by_label : NodeClaim → Option Text → Run World Bool
  drift_by_label node_claim none = ret false
  drift_by_label node_claim (some name) =
      λ w. drift_of_pool node_claim (p.get_node_pool name w).0 (p.get_node_pool name w).1

  -- IsDrifted: whether the reason is NodeClassDrift, and not the empty one
  unfoldable pub is_drifted : NodeClaim → Run World Bool
  unfolding lookup resolve_named is_kube_not_found are_static_fields_drifted
  is_drifted node_claim = drift_by_label node_claim (lookup node_pool_label_key node_claim.labels)
