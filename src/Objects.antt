-- ===== src/Objects.antt =====
-- The objects that the parts of the program pass to one another: the fields that the program reads or
-- writes of Kubernetes, Karpenter and Linode objects, and those of pkg/providers/instance/types.go.
use karpenter_provider_linod.Base.{
  ℕ, Bool, Option, none, some, List, [], Text, codes, Dict, lookup, ℤ,
}

-- karpv1.NodePoolLabelKey, and the label keys of pkg/apis/v1alpha1/labels.go
abbrev pub node_pool_label_key : Text
node_pool_label_key = codes "karpenter.sh/nodepool"

abbrev pub label_lke_managed : Text
label_lke_managed = codes "karpenter.k8s.linode/lke-managed"

abbrev pub label_node_class : Text
label_node_class = codes "karpenter.k8s.linode/linodenodeclass"

abbrev pub lke_cluster_name_tag_key : Text
lke_cluster_name_tag_key = codes "lke-cluster-name"

abbrev pub name_tag_key : Text
name_tag_key = codes "Name"

-- corev1.LabelTopologyZone
abbrev pub label_topology_zone : Text
label_topology_zone = codes "topology.kubernetes.io/zone"

-- m[k] of a map of texts: the empty text for a missing key
unfoldable pub at : Dict Text → Text → Text
unfolding lookup
at m k = elim (lookup k m) [ none ↦ [] | some v ↦ v ]

pub record Taint : Type 0 where
  pub key : Text
  pub value : Text
  pub effect : Text

-- karpv1.NodeClaim
pub record NodeClaim : Type 0 where
  pub name : Text
  pub labels : Dict Text
  pub annotations : Dict Text
  pub taints : List Taint
  pub node_class_ref : Option Text
  pub provider_id : Text
  pub node_name : Text
  pub deleted : Bool

-- LinodeNodeClass and its spec, as far as the LKE provider reads it
pub record NodeClass : Type 0 where
  pub name : Text
  pub annotations : Dict Text
  pub tags : List Text
  pub lke_k8s_version : Option Text
  pub generation : ℕ
  pub deleted : Bool

-- linodego.Instance
pub record LinodeInstance : Type 0 where
  pub id : ℤ
  pub created : Option ℕ
  pub region : Text
  pub image : Text
  pub type : Text
  pub status : Text
  pub tags : List Text
  pub lke_cluster_id : ℤ

-- Instance of pkg/providers/instance/types.go
pub record Instance : Type 0 where
  pub id : ℤ
  pub created : Option ℕ
  pub region : Text
  pub image : Text
  pub type : Text
  pub status : Text
  pub tags : List Text

-- NewLKEInstance, and the literals of the LKE provider's Get, List and hydrateInstanceFromLinode
unfoldable pub new_lke_instance : ℤ → Text → List Text → Text → Option ℕ → Instance
new_lke_instance id type tags region created = record {
  id = id;
  created = created;
  region = region;
  image = [];
  type = type;
  status = [];
  tags = tags;
}

-- linodego.LKENodePoolLinode, linodego.LKENodePool
pub record PoolNode : Type 0 where
  pub id : Text
  pub instance_id : ℤ

pub record NodePool : Type 0 where
  pub id : ℤ
  pub count : ℕ
  pub type : Text
  pub tags : List Text
  pub k8s_version : Option Text
  pub linodes : List PoolNode

pub data UpdateStrategy : Type 0 where
  rolling_update on_recycle : UpdateStrategy

-- linodego.LKENodePoolCreateOptions, linodego.LKENodePoolUpdateOptions: a field left out is `none`
pub record PoolCreateOptions : Type 0 where
  pub count : ℕ
  pub type : Text
  pub tags : List Text
  pub labels : Dict Text
  pub taints : List Taint
  pub k8s_version : Option Text
  pub update_strategy : Option UpdateStrategy

pub record PoolUpdateOptions : Type 0 where
  pub count : Option ℕ
  pub k8s_version : Option Text
  pub update_strategy : Option UpdateStrategy

-- linodego.RegionAvailability
pub record RegionAvailability : Type 0 where
  pub plan : Text
  pub region : Text
  pub available : Bool

-- linodego.LKEVersionTier
pub data Tier : Type 0 where
  standard enterprise : Tier
  unknown_tier : Text → Tier
