-- ===== src/CloudProvider/Find.antt =====
-- How the cloud provider finds the node class, the node pool and the instance type of a claim or of an
-- instance, and makes a node claim of it.
use karpenter_provider_linod.Controllers.State.{
  Run, ◌>>=◌, ret, throw, wrapping, ignoring, is_kube_not_found,
}
use karpenter_provider_linod.Base.{
  ◌||◌, Option, none, some, List, [], ◌∷◌, ◌++◌, if◌then◌else◌, Text, codes, text_eq, Dict, lookup,
  insert, pos, int_eq, itoa,
}
use karpenter_provider_linod.Errors.{message, Err, kube, not_found}
use karpenter_provider_linod.Objects.{
  node_pool_label_key, label_node_class, label_topology_zone, NodeClaim, Instance,
}
use karpenter_provider_linod.Tags.{tag_list_to_map}
use karpenter_provider_linod.Instances.{instance_deleting}
use karpenter_provider_linod.InstanceTypes.Types.{ResourceList, InstanceType}
use karpenter_provider_linod.InstanceTypes.Store.{find_type}
use karpenter_provider_linod.NodeClasses.Types.{LinodeNodeClass}
use karpenter_provider_linod.CloudProvider.Types.{ClaimPool, CloudClaim, Platform}

abbrev kube_missing : Err
kube_missing = kube not_found

-- the quantities that are not zero
unfoldable pub non_zero : ResourceList → ResourceList
unfolding int_eq
non_zero [] = []
non_zero ((k, v) ∷ m) = let rest = non_zero m in if int_eq v (pos 0) then rest else (k, v) ∷ rest

abbrev pub capacity_type_label_key : Text
capacity_type_label_key = codes "karpenter.sh/capacity-type"

-- linodego.InstanceShuttingDown
abbrev instance_shutting_down : Text
instance_shutting_down = codes "shutting_down"

-- the labels of the requirements; each has one value
unfoldable pub requirement_labels : Text → Dict Text → Dict Text → Dict Text
unfolding insert text_eq
requirement_labels reserved [] labels = labels
requirement_labels reserved ((key, value) ∷ requirements) labels =
    requirement_labels reserved requirements
      (if text_eq key reserved then labels else insert key value labels)

abbrev pub provider_id_of : Instance → Text
provider_id_of i = codes "linode://" ++ itoa i.id

module _ (p : Platform) where
  open p use {World}

  abbrev type_labels : Option InstanceType → Dict Text
  type_labels none = []
  type_labels (some it) = requirement_labels p.reservation_id_label it.requirements []

  abbrev type_capacity : Option InstanceType → ResourceList
  type_capacity none = []
  type_capacity (some it) = non_zero it.capacity

  abbrev type_allocatable : Option InstanceType → ResourceList
  type_allocatable none = []
  type_allocatable (some it) = non_zero (p.allocatable it)

  -- instanceToNodeClaim, at the time of its call
  unfoldable pub instance_to_node_claim : Instance → Option InstanceType → World → CloudClaim
  unfolding requirement_labels non_zero insert itoa text_eq
  instance_to_node_claim i it w = record {
    labels =
        insert capacity_type_label_key (codes "on-demand")
          (insert label_topology_zone i.region (type_labels it));
    annotations = [];
    capacity = type_capacity it;
    allocatable = type_allocatable it;
    created = i.created;
    deleted =
        if text_eq i.status instance_deleting || text_eq i.status instance_shutting_down
        then some (p.now w)
        else none;
    provider_id = provider_id_of i;
    image_id = i.image;
  }

  -- a node class that is being deleted counts as not found
  abbrev pub unless_deleted : LinodeNodeClass → Run World LinodeNodeClass
  unless_deleted node_class = if node_class.meta.deleted then throw kube_missing else ret node_class

  unfoldable pub resolve_named : Text → Run World LinodeNodeClass
  resolve_named name = do node_class ← p.get_node_class name; unless_deleted node_class

  abbrev pub resolve_ref : Option Text → Run World LinodeNodeClass
  resolve_ref none = throw kube_missing
  resolve_ref (some name) = resolve_named name

  -- resolveNodeClassFromNodeClaim
  unfoldable pub resolve_node_class_from_node_claim : NodeClaim → Run World LinodeNodeClass
  unfolding resolve_named
  resolve_node_class_from_node_claim node_claim = resolve_ref node_claim.node_class_ref

  abbrev resolve_tagged : Option Text → Run World LinodeNodeClass
  resolve_tagged none = throw kube_missing
  resolve_tagged (some name) = do
    node_class ← wrapping (p.get_node_class name)
    unless_deleted node_class

  -- resolveNodeClassFromInstance
  unfoldable pub resolve_node_class_from_instance : Instance → Run World LinodeNodeClass
  unfolding tag_list_to_map lookup
  resolve_node_class_from_instance i =
      resolve_tagged (lookup label_node_class (tag_list_to_map i.tags))

  abbrev pool_tagged : Option Text → Run World ClaimPool
  pool_tagged none = throw kube_missing
  pool_tagged (some name) = p.get_node_pool name

  -- resolveNodePoolFromInstance
  unfoldable pub resolve_node_pool_from_instance : Instance → Run World ClaimPool
  unfolding tag_list_to_map lookup
  resolve_node_pool_from_instance i =
      pool_tagged (lookup node_pool_label_key (tag_list_to_map i.tags))

  -- resolveNodeClassFromNodePool; without a reference, which the schema of a node pool does not allow,
  -- the source dereferences a nil pointer, for which an error stands here
  abbrev pub resolve_pool_class : Option Text → Run World LinodeNodeClass
  resolve_pool_class none = throw message
  resolve_pool_class (some name) = resolve_named name

  -- GetInstanceTypes
  unfoldable pub get_instance_types : ClaimPool → Run World (List InstanceType)
  unfolding resolve_named
  get_instance_types pool = do
    node_class ← wrapping (resolve_pool_class pool.node_class_ref)
    p.list_types node_class

  -- nil, if the error says that something is missing
  abbrev missing_as_none : {A : Type 0} → Run World (Option A) → Run World (Option A)
  missing_as_none m = ignoring is_kube_not_found none (wrapping m)

  -- resolveInstanceTypeFromInstance
  unfoldable pub resolve_instance_type_from_instance : Instance → Run World (Option InstanceType)
  unfolding resolve_node_pool_from_instance get_instance_types find_type is_kube_not_found
  resolve_instance_type_from_instance i = missing_as_none (do
    pool ← resolve_node_pool_from_instance i
    types ← get_instance_types pool
    ret (find_type i.type types))
