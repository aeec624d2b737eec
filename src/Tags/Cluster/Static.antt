-- ===== src/Tags/Cluster/Static.antt =====
-- The fixed tags and those of the node class.
use karpenter_provider_linod.Base.{
  ◌≡◌, refl, true, some, if◌then◌else◌, Text, codes, text_eq, lookup, or_else, nodup_keys,
  lookup-insert, insert-nodup_keys, lookup-assign, [], ◌∷◌,
}
use karpenter_provider_linod.Objects.{label_lke_managed, NodeClaim, NodeClass}
use karpenter_provider_linod.Tags.{tag_list_to_map}
use karpenter_provider_linod.Tags.Cluster.{static_tags, get_tags, get_tags_for_lke}

one_key : (k v : Text) → nodup_keys ((k, v) ∷ []) ≡ true
unfolding nodup_keys lookup
one_key k v = refl

static_tags-nodup :
    (c : NodeClass) (claim : NodeClaim) (cluster : Text)
    → nodup_keys (static_tags c claim cluster) ≡ true
unfolding static_tags
static_tags-nodup c claim cluster =
    insert-nodup_keys _ _ _ (insert-nodup_keys _ _ _ (insert-nodup_keys _ _ _ (one_key _ _)))

-- GetTags has for a key the value of the fixed tags, or else that of the tags of the node class.
-- GetTagsForLKE has the fixed tags and the mark of Karpenter, whatever the tags of the node class
-- are.
pub lookup-get_tags :
    (c : NodeClass) (claim : NodeClaim) (cluster k : Text)
    → (lookup k (get_tags c claim cluster)
        ≡ or_else (lookup k (static_tags c claim cluster)) (lookup k (tag_list_to_map c.tags)))
      × (lookup k (get_tags_for_lke c claim cluster) ≡ (
          if text_eq label_lke_managed k
          then some (codes "true")
          else lookup k (static_tags c claim cluster)))
unfolding get_tags get_tags_for_lke
lookup-get_tags c claim cluster k = (
  lookup-assign k _ _ (static_tags-nodup c claim cluster),
  lookup-insert k label_lke_managed (codes "true") (static_tags c claim cluster),
)
