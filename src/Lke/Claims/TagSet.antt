-- ===== src/Lke/Claims/TagSet.antt =====
-- The tags that claimInstance writes.
use karpenter_provider_linod.Lke.Claims.{merged_tags, claim_tags}
use karpenter_provider_linod.Tags.Dedupe.{contains-dedupe_tags, dedupe_tags-nodup}
use karpenter_provider_linod.Tags.Maps.{
  split-IsTagPair, tag_list_to_map-IsTagMap, assign-IsTagMap, has_pair, IsTagMap,
  contains-map_to_tag_list,
}
use karpenter_provider_linod.Base.{
  ◌≡◌, refl, ◌≢◌, true, not, ◌&&◌, ◌||◌, List, [], ◌∷◌, Text, text_eq, contains, lookup, nodup_keys,
  is_sorted, nodup, ◌∙◌, some, arith, text_eq_refl, contains-append, assign, lookup-insert,
  contains-sort, sort-is_sorted, sort-nodup, false, Dict,
}
use karpenter_provider_linod.Tags.{split_tag, opaque_tags}
use karpenter_provider_linod.Tags.Claim.{
  node_claim_tag_key, normalize_node_claim_tag_value, node_claim_tag, node_claim_tag_lem,
}

claim_pair-IsTagMap :
    (name : Text)
    → name ≢ []
    → IsTagMap ((node_claim_tag_key, normalize_node_claim_tag_value name) ∷ [])
claim_pair-IsTagMap name h = record {
  pairs = (split-IsTagPair (node_claim_tag name) _ (node_claim_tag_lem name h).1, tt);
  keys = unfold nodup_keys in unfold lookup in refl;
}

merged_tags-IsTagMap :
    (i pool c : List Text) (name : Text) → name ≢ [] → IsTagMap (merged_tags i pool c name)
unfolding merged_tags
merged_tags-IsTagMap i pool c name h =
    assign-IsTagMap _ _
      (assign-IsTagMap _ _
        (assign-IsTagMap _ _ (tag_list_to_map-IsTagMap i) (tag_list_to_map-IsTagMap pool))
        (tag_list_to_map-IsTagMap c))
      (claim_pair-IsTagMap name h)

contains-claim_tags :
    (i pool c : List Text) (name t : Text)
    → name ≢ []
    → contains t (claim_tags i pool c name) ≡ (
        not (text_eq t [])
        && (has_pair (merged_tags i pool c name) (split_tag t)
            || (contains t (opaque_tags i) || contains t (opaque_tags c))))
unfolding claim_tags
contains-claim_tags i pool c name t h =
    rw
      (
        contains-sort,
        contains-dedupe_tags,
        contains-append,
        contains-append,
        contains-map_to_tag_list t _ (merged_tags-IsTagMap i pool c name h),
      )
      (ground arith)

has_pair-lookup :
    (k v : Text) (m : Dict Text) → lookup k m ≡ some v → has_pair m (some (k, v)) ≡ true
has_pair-lookup k v m h = ground (arith, text_eq_refl v)

lookup-merged_tags :
    (i pool c : List Text) (name : Text)
    → lookup node_claim_tag_key (merged_tags i pool c name)
      ≡ some (normalize_node_claim_tag_value name)
unfolding merged_tags assign
lookup-merged_tags i pool c name = lookup-insert _ _ _ _ ∙ rw text_eq_refl refl

-- the claim's tag is not empty, and the merged maps have its pair
claim_tag-merged :
    (i pool c : List Text) (name : Text)
    → name ≢ []
    → (text_eq (node_claim_tag name) [] ≡ false)
      × (has_pair (merged_tags i pool c name) (split_tag (node_claim_tag name)) ≡ true)
claim_tag-merged i pool c name h = (
  unfold node_claim_tag in unfold text_eq in refl,
  rw ((node_claim_tag_lem name h).1) (has_pair-lookup _ _ _ (lookup-merged_tags i pool c name)),
)

-- For a claim with a name, the tags that claimInstance writes are sorted, without duplicates, and
-- carry the claim's tag. A tag is among them iff it is not empty, and it is the pair that the merged
-- maps have for its key, or it is an opaque tag of the instance or the node class.
pub claim_tags_lem :
    (i pool c : List Text) (name t : Text)
    → name ≢ []
    → (is_sorted (claim_tags i pool c name) ≡ true)
      × (nodup (claim_tags i pool c name) ≡ true)
      × (contains (node_claim_tag name) (claim_tags i pool c name) ≡ true)
      × (contains t (claim_tags i pool c name) ≡ (
          not (text_eq t [])
          && (has_pair (merged_tags i pool c name) (split_tag t)
              || (contains t (opaque_tags i) || contains t (opaque_tags c)))))
claim_tags_lem i pool c name t h = (
  unfold claim_tags in sort-is_sorted _,
  unfold claim_tags in sort-nodup _ (dedupe_tags-nodup _),
  contains-claim_tags i pool c name (node_claim_tag name) h
      ∙ rw ((claim_tag-merged i pool c name h).0, (claim_tag-merged i pool c name h).1) refl,
  contains-claim_tags i pool c name t h,
)
