-- ===== src/Lke/Pools/Labels.antt =====
-- The labels of a pool that is created.
use karpenter_provider_linod.Lke.Pools.{lke_labels_from_node_claim}
use karpenter_provider_linod.Base.{
  ◌≡◌, none, [], ◌∷◌, arith, if◌then◌else◌, Text, text_eq, text_eq_iff, Dict, lookup,
}
use karpenter_provider_linod.Objects.{label_topology_zone}

-- The labels made of those of a node claim have the same value for every key but the zone, which
-- they do not have.
pub lookup-lke_labels_from_node_claim :
    (k : Text) (labels : Dict Text)
    → lookup k (lke_labels_from_node_claim labels)
      ≡ (if text_eq k label_topology_zone then none else lookup k labels)
unfolding lookup lke_labels_from_node_claim
lookup-lke_labels_from_node_claim k [] = ground arith
lookup-lke_labels_from_node_claim k ((key, value) ∷ labels) = ground (
  arith,
  text_eq_iff key k,
  text_eq_iff key label_topology_zone,
  text_eq_iff k label_topology_zone,
  lookup-lke_labels_from_node_claim k labels,
)
