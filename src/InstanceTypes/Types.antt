-- ===== src/InstanceTypes/Types.antt =====
-- cloudprovider.InstanceType with its offerings, and linodego.LinodeType, as far as
-- pkg/providers/instancetype and pkg/providers/instancetype/offering read or write them.
use karpenter_provider_linod.Base.{ℕ, Bool, Option, List, Text, codes, Dict, ℤ}

-- resource.Quantity: a number of thousandths of its unit
abbrev pub Quantity : Type 0
Quantity = ℤ

-- corev1.ResourceList
abbrev pub ResourceList : Type 0
ResourceList = Dict Quantity

-- cloudprovider.Device and cloudprovider.ResourceSliceTemplate; a StringValue or a VersionValue is
-- its text
pub record Device : Type 0 where
  pub name : Text
  pub attributes : Dict Text
  pub capacity : ResourceList

pub record SliceTemplate : Type 0 where
  pub driver : Text
  pub pool : Text
  pub devices : List Device

-- cloudprovider.Offering: its requirements are the region, which is the zone too, and on-demand
-- capacity; the price is the 64 bits of a floating-point number
pub record Offering : Type 0 where
  pub region : Text
  pub price : ℕ
  pub available : Bool

-- cloudprovider.InstanceType: each requirement has one value
pub record InstanceType : Type 0 where
  pub name : Text
  pub requirements : Dict Text
  pub offerings : List Offering
  pub capacity : ResourceList
  pub dynamic_resources : List SliceTemplate
  pub kube_reserved : ResourceList
  pub system_reserved : ResourceList
  pub eviction_threshold : ResourceList

-- linodego.LinodeType; `hourly` is the 64 bits of the hourly price, `none` without a price.
-- Sizes and counts are not negative; the code tests it of the GPUs.
pub record LinodeType : Type 0 where
  pub id : Text
  pub hourly : Option ℕ
  pub vcpus : ℕ
  pub memory : ℕ
  pub disk : ℕ
  pub transfer : ℕ
  pub network_out : ℕ
  pub class : Text
  pub gpus : ℤ
  pub accelerated_devices : ℕ

-- KubeletConfiguration; the schema of the node class allows no negative numbers. `others` stands for
-- what the program only hashes.
pub record Kubelet : Type 0 where
  pub max_pods : Option ℕ
  pub pods_per_core : Option ℕ
  pub kube_reserved : Dict Text
  pub system_reserved : Dict Text
  pub eviction_hard : Option (Dict Text)
  pub eviction_soft : Option (Dict Text)
  pub others : Text

-- the NodeClass interface: GetName, KubeletConfiguration and LinodeImages
pub record ClassSettings : Type 0 where
  pub name : Text
  pub kubelet : Option Kubelet
  pub images : List Text

-- corev1.LabelTopologyRegion
abbrev pub label_topology_region : Text
label_topology_region = codes "topology.kubernetes.io/region"
