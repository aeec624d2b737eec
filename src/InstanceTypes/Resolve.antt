-- ===== src/InstanceTypes/Resolve.antt =====
-- The resolution of a Linode type into an instance type: pkg/providers/instancetype/types.go.
-- CPU quantities count thousandths of a CPU, as all quantities count thousandths of their unit.
pub mod Reserved
use karpenter_provider_linod.Base.{
  ℕ, ◌+◌, ◌-◌, ◌*◌, ◌/◌, min, Option, none, some, List, [], ◌∷◌, ◌++◌, ltb, if◌then◌else◌, Text,
  Dict, assign, pos, negsuc,
}
use karpenter_provider_linod.InstanceTypes.Signals.{
  resource_cpu, resource_memory, resource_ephemeral_storage, resource_pods, eviction_threshold,
  Numbers,
}
use karpenter_provider_linod.InstanceTypes.Types.{
  Quantity, ResourceList, LinodeType, InstanceType, Kubelet, ClassSettings,
}
use karpenter_provider_linod.InstanceTypes.Requirements.{compute_requirements}
use karpenter_provider_linod.InstanceTypes.Gpus.{
  mebibytes, nvidia_gpu_metadata, nvidia_gpu_resources,
}

-- m - n
unfoldable pub quantity_sub : ℕ → ℕ → Quantity
quantity_sub m n = if ltb m n then negsuc (n - m - 1) else pos (m - n)

-- a pointer's number, or another one for nil
abbrev pub or_number : ℕ → Option ℕ → ℕ
or_number default none = default
or_number default (some n) = n

-- pods
unfoldable pub pods : LinodeType → Option ℕ → Option ℕ → ℕ
pods info max_pods pods_per_core =
    let count = or_number 110 max_pods in
    let per_core = or_number 0 pods_per_core in
    if ltb 0 per_core then min (per_core * info.vcpus) count else count

-- cpu, in thousandths
abbrev pub cpu_milli : LinodeType → ℕ
cpu_milli info = info.vcpus * 1000

-- ephemeralStorage
abbrev pub ephemeral_storage : LinodeType → Quantity
ephemeral_storage info = pos (mebibytes info.disk)

-- the CPU ranges of kubeReservedResources: start, end, and the percentage as a fraction. On whole CPUs
-- r * percentage, truncated, is r * num / den.
pub record CpuRange : Type 0 where
  pub start : ℕ
  pub end : ℕ
  pub num : ℕ
  pub den : ℕ

abbrev pub cpu_ranges : List CpuRange
cpu_ranges =
    record { start = 0; end = 1000; num = 6; den = 100 }
    ∷ record { start = 1000; end = 2000; num = 1; den = 100 }
    ∷ record { start = 2000; end = 4000; num = 5; den = 1000 }
    ∷ record { start = 4000; end = 2147483648; num = 25; den = 10000 }
    ∷ []

-- what a range adds
unfoldable pub range_overhead : ℕ → CpuRange → ℕ
range_overhead milli range =
    let r = if ltb milli range.end then milli - range.start else range.end - range.start in
    if ltb milli range.start then 0 else r * range.num / range.den

unfoldable pub cpu_overhead : ℕ → List CpuRange → ℕ
unfolding range_overhead
cpu_overhead milli [] = 0
cpu_overhead milli (range ∷ ranges) = range_overhead milli range + cpu_overhead milli ranges

-- resourceList of kubeReservedResources after the loop
unfoldable pub default_reserved : ℕ → ℕ → ResourceList
unfolding cpu_overhead
default_reserved milli pod_count =
    (resource_memory, pos (mebibytes (11 * pod_count + 255)))
    ∷ (resource_ephemeral_storage, pos (mebibytes 1024))
    ∷ (resource_cpu, pos (cpu_overhead milli cpu_ranges))
    ∷ []

abbrev settings_of : Option Kubelet → Kubelet
settings_of (some k) = k
settings_of none = record {
  max_pods = none;
  pods_per_core = none;
  kube_reserved = [];
  system_reserved = [];
  eviction_hard = none;
  eviction_soft = none;
  others = [];
}

module _ (n : Numbers) where
  -- systemReservedResources, and the last step of kubeReservedResources
  unfoldable pub parse_entries : Dict Text → ResourceList
  parse_entries [] = []
  parse_entries ((k, v) ∷ m) = (k, n.parse v) ∷ parse_entries m

  unfoldable pub kube_reserved_resources : ℕ → ℕ → Dict Text → ResourceList
  kube_reserved_resources milli pod_count kube_reserved =
      assign (default_reserved milli pod_count) (parse_entries kube_reserved)

  -- memory
  unfoldable pub memory : LinodeType → Quantity
  unfolding quantity_sub
  memory info =
      quantity_sub (mebibytes info.memory) (mebibytes (n.overhead_mib (info.memory * 1048576)))

  unfoldable pub compute_capacity : LinodeType → Option ℕ → Option ℕ → ResourceList
  unfolding pods
  compute_capacity info max_pods pods_per_core =
      (resource_cpu, pos (cpu_milli info))
      ∷ (resource_memory, memory info)
      ∷ (resource_ephemeral_storage, ephemeral_storage info)
      ∷ (resource_pods, pos (pods info max_pods pods_per_core * 1000))
      ∷ []

  -- NewInstanceType with the fields of a KubeletConfiguration, and no offerings yet
  unfoldable pub new_instance_type : LinodeType → Text → Kubelet → InstanceType
  unfolding pods
  new_instance_type info region kc = record {
    name = info.id;
    requirements = compute_requirements info region;
    offerings = [];
    capacity = compute_capacity info kc.max_pods kc.pods_per_core;
    dynamic_resources = [];
    kube_reserved =
        kube_reserved_resources (cpu_milli info) (pods info kc.max_pods kc.pods_per_core)
          kc.kube_reserved;
    system_reserved = parse_entries kc.system_reserved;
    eviction_threshold =
        eviction_threshold n (memory info) (ephemeral_storage info) kc.eviction_hard
          kc.eviction_soft;
  }

  -- Resolve
  unfoldable pub resolve_type : Text → LinodeType → ClassSettings → InstanceType
  resolve_type region info node_class =
      record (new_instance_type info region (settings_of node_class.kubelet)) {
        dynamic_resources = nvidia_gpu_resources nvidia_gpu_metadata info;
      }

-- CacheKey, with hashstructure.Hash as sixteen hexadecimal digits
unfoldable pub resolver_cache_key : (Kubelet → Text) → ClassSettings → Text
resolver_cache_key kubelet_hash node_class =
    node_class.name ++ b'-' ∷ kubelet_hash (settings_of node_class.kubelet)
