-- ===== src/Tags/Valid.antt =====
-- ValidateTags and ValidateTagLengths. An error is the list of the tags that it names, and `none`
-- is nil: the text of the message is not modelled.
pub mod Checks
use karpenter_provider_linod.Base.{
  Bool, false, not, ◌&&◌, Option, none, some, List, [], ◌∷◌, ltb, if◌then◌else◌, length, Text,
  codes, contains, sort,
}
use karpenter_provider_linod.Tags.{split_tag}
use karpenter_provider_linod.Tags.Claim.{max_linode_tag_length}

-- restrictedTagKeys
abbrev pub restricted_tag_keys : List Text
restricted_tag_keys =
    codes "karpenter.sh/nodepool"
    ∷ codes "karpenter.k8s.linode/linodenodeclass"
    ∷ codes "karpenter.k8s.linode/lke-managed"
    ∷ codes "karpenter.sh/nodeclaim"
    ∷ codes "lke-cluster-name"
    ∷ codes "Name"
    ∷ []

unfoldable pub is_restricted : List Text → Option (Text × Text) → Bool
is_restricted restricted none = false
is_restricted restricted (some (key, _)) = contains key restricted

-- the loop of ValidateTags over the tags seen
invalid_tags : List Text → List Text → List Text → List Text
unfolding is_restricted
invalid_tags restricted seen [] = []
invalid_tags restricted seen (tag ∷ tags) =
    let reported = tag ∷ invalid_tags restricted (tag ∷ seen) tags in
    let rest = invalid_tags restricted seen tags in
    if is_restricted restricted (split_tag tag) && not (contains tag seen) then reported else rest

abbrev error_of : List Text → Option (List Text)
error_of [] = none
error_of (t ∷ ts) = some (t ∷ ts)

unfoldable pub validate_tags : List Text → Option (List Text)
unfolding invalid_tags
validate_tags tags = error_of (invalid_tags restricted_tag_keys [] tags)

too_long : List Text → List Text
too_long [] = []
too_long (tag ∷ tags) =
    let rest = too_long tags in if ltb max_linode_tag_length (length tag) then tag ∷ rest else rest

unfoldable pub validate_tag_lengths : List Text → Option (List Text)
unfolding too_long
validate_tag_lengths tags = error_of (sort (too_long tags))
