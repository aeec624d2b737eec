-- ===== src/Tags/Cluster.antt =====
-- The tags of a cluster's instances and pools: GetTags and GetTagsForLKE of pkg/utils/utils.go.
pub mod Static
use karpenter_provider_linod.Base.{[], ◌∷◌, ◌++◌, Text, codes, Dict, insert, assign}
use karpenter_provider_linod.Objects.{
  node_pool_label_key, label_lke_managed, label_node_class, lke_cluster_name_tag_key, at, NodeClaim,
  NodeClass,
}
use karpenter_provider_linod.Tags.{tag_list_to_map}

-- fmt.Sprintf("kubernetes.io/cluster/%s", clusterName)
unfoldable pub cluster_tag_key : Text → Text
cluster_tag_key cluster_name = codes "kubernetes.io/cluster/" ++ cluster_name

-- staticTags of GetTags
unfoldable pub static_tags : NodeClass → NodeClaim → Text → Dict Text
unfolding cluster_tag_key at insert
static_tags node_class node_claim cluster_name = insert label_node_class node_class.name (
    insert lke_cluster_name_tag_key cluster_name (
      insert node_pool_label_key (at node_claim.labels node_pool_label_key)
        ((cluster_tag_key cluster_name, codes "owned") ∷ [])))

unfoldable pub get_tags : NodeClass → NodeClaim → Text → Dict Text
unfolding static_tags assign tag_list_to_map
get_tags node_class node_claim cluster_name =
    assign (tag_list_to_map node_class.tags) (static_tags node_class node_claim cluster_name)

unfoldable pub get_tags_for_lke : NodeClass → NodeClaim → Text → Dict Text
unfolding static_tags insert
get_tags_for_lke node_class node_claim cluster_name =
    insert label_lke_managed (codes "true") (static_tags node_class node_claim cluster_name)
