-- ===== src/NodeClasses/Types.antt =====
-- LinodeNodeClass of pkg/apis/v1alpha1/linodenodeclass.go and linodenodeclass_status.go with all that
-- the instance provider, the cloud provider and the node class controllers read or write of it; the
-- name, the annotations, the tags and the LKE version are in Objects.NodeClass.
use karpenter_provider_linod.Base.{ℕ, Bool, Option, List, Text, ℤ, codes}
use karpenter_provider_linod.InstanceTypes.Types.{Kubelet}
use karpenter_provider_linod.Objects.{NodeClass}

-- InstanceCreatePlacementGroupOptions
pub record PlacementGroup : Type 0 where
  pub id : ℤ
  pub compliant_only : Option Bool

-- LinodeNodeClassSpec; of the disks, the configuration, the VPC and the IPv6 options the program only
-- asks whether they are set
pub record ClassSpec : Type 0 where
  pub authorized_keys : List Text
  pub authorized_users : List Text
  pub image : Text
  pub backups_enabled : Bool
  pub firewall_id : Option ℤ
  pub has_os_disk : Bool
  pub has_data_disks : Bool
  pub disk_encryption : Text
  pub has_configuration : Bool
  pub placement_group : Option PlacementGroup
  pub has_vpc_id : Bool
  pub has_ipv6_options : Bool
  pub swap_size : Option ℤ
  pub kubelet : Option Kubelet

pub data ConditionStatus : Type 0 where
  is_true is_false is_unknown : ConditionStatus

-- status.Condition
pub record Condition : Type 0 where
  pub status : ConditionStatus
  pub observed_generation : ℕ

-- the reasons of pkg/controllers/nodeclass/validation.go
pub data ConditionReason : Type 0 where
  tag_validation_failed lke_version_unsupported lke_version_mismatch : ConditionReason
  unsupported_instance_fields unsupported_lke_fields : ConditionReason

-- the condition ValidationSucceeded
pub data Verdict : Type 0 where
  undecided succeeded : Verdict
  failed : ConditionReason → Verdict

pub record LinodeNodeClass : Type 0 where
  pub meta : NodeClass
  pub spec : ClassSpec
  -- StatusConditions().Get(Ready), `none` for nil
  pub ready : Option Condition
  pub validation : Verdict
  -- TerminationFinalizer is among the finalizers
  pub has_finalizer : Bool

-- Hash of LinodeNodeClass, with hashstructure.Hash of the spec without its tags: of the rest of the spec
-- and of the LKE version
unfoldable pub class_hash : (ClassSpec → Option Text → Text) → LinodeNodeClass → Text
class_hash spec_hash node_class = spec_hash node_class.spec node_class.meta.lke_k8s_version

-- LinodeNodeClassHashVersion
abbrev pub hash_version : Text
hash_version = codes "v1alpha1"
