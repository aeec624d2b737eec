-- ===== src/CloudProvider/Types.antt =====
-- What the cloud provider calls, and the node claims that it makes.
use karpenter_provider_linod.Base.{ℕ, Bool, Option, List, Text, Dict}
use karpenter_provider_linod.Objects.{NodeClaim, Instance}
use karpenter_provider_linod.InstanceTypes.Types.{ResourceList, InstanceType}
use karpenter_provider_linod.NodeClasses.Types.{ClassSpec, LinodeNodeClass}
use karpenter_provider_linod.Lke.State.{Result}

-- karpv1.NodePool: the name of the node class that its template refers to
pub record ClaimPool : Type 0 where
  pub node_class_ref : Option Text

-- the karpv1.NodeClaim that instanceToNodeClaim makes
pub record CloudClaim : Type 0 where
  pub labels : Dict Text
  pub annotations : Dict Text
  pub capacity : ResourceList
  pub allocatable : ResourceList
  pub created : Option ℕ
  pub deleted : Option ℕ
  pub provider_id : Text
  pub image_id : Text

-- The Kubernetes client, the instance type provider and the node provider. What others do meanwhile is
-- in the answers.
pub record Platform : Type 1 where
  pub World : Type 0
  pub get_node_class : Text → World → Result LinodeNodeClass × World
  pub get_node_pool : Text → World → Result ClaimPool × World
  -- instanceTypeProvider.List
  pub list_types : LinodeNodeClass → World → Result (List InstanceType) × World
  -- nodeProvider.Create, with the node class as it leaves it, List, Get and Delete
  pub create_node :
      LinodeNodeClass
      → NodeClaim
      → Dict Text
      → List InstanceType
      → World
      → (Result Instance × LinodeNodeClass) × World
  pub list_nodes : World → Result (List Instance) × World
  pub get_node : Text → World → Result Instance × World
  pub delete_node : Text → World → Result (Unit {0}) × World
  -- time.Now()
  pub now : World → ℕ
  -- hashstructure.Hash of Hash(), instanceType.Allocatable(), IsUnknown() of a condition that is nil
  pub spec_hash : ClassSpec → Option Text → Text
  pub allocatable : InstanceType → ResourceList
  pub nil_is_unknown : Bool
  -- cloudprovider.ReservationIDLabel of Karpenter
  pub reservation_id_label : Text
  -- options.FromContext(ctx): Mode == "lke", and ClusterName
  pub lke_mode : Bool
  pub cluster_name : Text
