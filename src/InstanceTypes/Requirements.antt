-- ===== src/InstanceTypes/Requirements.antt =====
-- computeRequirements of pkg/providers/instancetype/types.go: the labels that a plan's nodes will have.
use karpenter_provider_linod.Base.{
  ℕ, List, [], ◌∷◌, ◌++◌, ◌==◌, if◌then◌else◌, Text, codes, text_eq, Dict, pos, itoa,
}
use karpenter_provider_linod.Objects.{label_topology_zone}
use karpenter_provider_linod.InstanceTypes.Types.{label_topology_region, LinodeType}

-- strings.Split(s, "-")
unfoldable pub split_dash : Text → List Text
split_dash [] = [] ∷ []
split_dash (c ∷ cs) =
    let rest = split_dash cs in
    if c == b'-' then [] ∷ rest else elim rest [ [] ↦ (c ∷ []) ∷ [] | l ∷ ls ↦ (c ∷ l) ∷ ls ]

-- strings.TrimPrefix(s, "g")
abbrev trim_g : Text → Text
trim_g [] = []
trim_g (c ∷ s) = if c == b'g' then s else c ∷ s

abbrev pub label_instance_generation : Text
label_instance_generation = codes "karpenter.k8s.linode/instance-generation"

abbrev pub label_instance_gpu_name : Text
label_instance_gpu_name = codes "karpenter.k8s.linode/instance-gpu-name"

-- fmt.Sprint of a number that is not negative
abbrev sprint : ℕ → Text
sprint n = itoa (pos n)

-- the requirements that every plan has
unfoldable pub base_requirements : LinodeType → Text → Dict Text
unfolding itoa
base_requirements info region =
    (codes "node.kubernetes.io/instance-type", info.id)
    ∷ (label_topology_region, region)
    ∷ (codes "topology.linode.com/region", region)
    ∷ (label_topology_zone, region)
    ∷ (codes "karpenter.sh/capacity-type", codes "on-demand")
    ∷ (codes "kubernetes.io/arch", codes "amd64")
    ∷ (codes "kubernetes.io/os", codes "linux")
    ∷ (codes "karpenter.k8s.linode/instance-cpu", sprint info.vcpus)
    ∷ (codes "karpenter.k8s.linode/instance-memory", sprint info.memory)
    ∷ (codes "karpenter.k8s.linode/instance-transfer", sprint info.transfer)
    ∷ (codes "karpenter.k8s.linode/instance-network-out", sprint info.network_out)
    ∷ (codes "karpenter.k8s.linode/instance-class", info.class)
    ∷ (codes "karpenter.k8s.linode/instance-gpu-count", itoa info.gpus)
    ∷ (
      codes "karpenter.k8s.linode/instance-accelerated-devices-count",
      sprint info.accelerated_devices,
    )
    ∷ (codes "karpenter.k8s.linode/instance-disk", sprint info.disk)
    ∷ []

-- the requirements that the parts of the plan's name add
unfoldable pub name_requirements : List Text → Dict Text
unfolding text_eq
name_requirements [] = []
name_requirements (first ∷ []) = []
name_requirements (first ∷ second ∷ []) = (label_instance_generation, trim_g first) ∷ []
name_requirements (first ∷ second ∷ third ∷ rest) =
    (label_instance_generation, trim_g first)
    ∷ (if text_eq second (codes "gpu") then (label_instance_gpu_name, third) ∷ [] else [])

unfoldable pub compute_requirements : LinodeType → Text → Dict Text
unfolding base_requirements name_requirements
compute_requirements info region =
    base_requirements info region ++ name_requirements (split_dash info.id)
