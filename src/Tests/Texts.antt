-- ===== src/Tests/Texts.antt =====
-- Tags.
use karpenter_provider_linod.Base.{
  ◌≤◌, ◌≡◌, refl, ◌≢◌, ◌↔◌, true, not, ◌&&◌, ◌||◌, none, some, List, [], ◌∷◌, arith, length, All,
  Text, codes, text_eq, contains, index_rune, Dict, lookup, nodup_keys, is_sorted, nodup, false,
}
use karpenter_provider_linod.Tags.{
  split_tag, tag_list_to_map, map_to_tag_list, dedupe_tags, opaque_tags, join_tag,
}
use karpenter_provider_linod.Tags.Claim.{
  max_linode_tag_length, node_claim_tag_key, normalize_node_claim_tag_value, node_claim_tag,
  node_claim_tag_lem,
}
use karpenter_provider_linod.Tags.Valid.{validate_tags, validate_tag_lengths}
use karpenter_provider_linod.Lke.Claims.{merged_tags, claim_tags}
use karpenter_provider_linod.Tags.Split.{has_equals, split_tag_iff}
use karpenter_provider_linod.Tags.Maps.{has_pair, tag_list_to_map-map_to_tag_list, IsTagMap}
use karpenter_provider_linod.Tags.Dedupe.{dedupe_tags_lem}
use karpenter_provider_linod.Tags.Normal.{normalize_tag_list, effective, normalize_tag_list_lem}
use karpenter_provider_linod.Tags.Valid.Checks.{
  validate_tag_lengths_lem, NotUnder, reserved_keys, validate_tags_lem,
}
use karpenter_provider_linod.Lke.Claims.TagSet.{claim_tags_lem}

abbrev some_tags : List Text
some_tags = codes "team=web" ∷ codes "plain" ∷ codes "team=web" ∷ codes "a=b=c" ∷ [] ∷ []

given : codes "web-1" ≢ []
given h = absurd (ground arith)

claim_tags_lem_example :
    (is_sorted (claim_tags some_tags [] some_tags (codes "web-1")) ≡ true)
    × (nodup (claim_tags some_tags [] some_tags (codes "web-1")) ≡ true)
    × (contains (node_claim_tag (codes "web-1")) (claim_tags some_tags [] some_tags (codes "web-1"))
        ≡ true)
    × (contains (codes "plain") (claim_tags some_tags [] some_tags (codes "web-1")) ≡ (
        not (text_eq (codes "plain") [])
        && (has_pair
              (merged_tags some_tags [] some_tags (codes "web-1"))
              (split_tag (codes "plain"))
            || (contains (codes "plain") (opaque_tags some_tags)
                || contains (codes "plain") (opaque_tags some_tags)))))
claim_tags_lem_example = claim_tags_lem some_tags [] some_tags (codes "web-1") (codes "plain") given

node_claim_tag_lem_example :
    (length (node_claim_tag (codes "web-1")) ≤ max_linode_tag_length)
    × (split_tag (node_claim_tag (codes "web-1"))
        ≡ some (node_claim_tag_key, normalize_node_claim_tag_value (codes "web-1")))
node_claim_tag_lem_example = node_claim_tag_lem (codes "web-1") given

dedupe_tags_lem_example :
    (nodup (dedupe_tags some_tags) ≡ true)
    × (contains (codes "plain") (dedupe_tags some_tags)
        ≡ (not (text_eq (codes "plain") []) && contains (codes "plain") some_tags))
    × (dedupe_tags (dedupe_tags some_tags) ≡ dedupe_tags some_tags)
dedupe_tags_lem_example = dedupe_tags_lem (codes "plain") some_tags

normalize_tag_list_lem_example :
    (is_sorted (normalize_tag_list some_tags) ≡ true)
    × (nodup (normalize_tag_list some_tags) ≡ true)
    × (contains (codes "plain") (normalize_tag_list some_tags)
        ≡ effective some_tags (codes "plain"))
    × ((normalize_tag_list some_tags ≡ normalize_tag_list [])
        ↔ ((u : Text) → effective some_tags u ≡ effective [] u))
normalize_tag_list_lem_example = normalize_tag_list_lem some_tags [] (codes "plain")

validate_tags_lem_example : validate_tags some_tags ≡ none ↔ All (NotUnder reserved_keys) some_tags
validate_tags_lem_example = validate_tags_lem some_tags

validate_tag_lengths_lem_example :
    validate_tag_lengths some_tags ≡ none ↔ All (λ t. length t ≤ max_linode_tag_length) some_tags
validate_tag_lengths_lem_example = validate_tag_lengths_lem some_tags

abbrev one_pair : Dict Text
one_pair = (codes "team", codes "web") ∷ []

one_pair-IsTagMap : IsTagMap one_pair
unfolding index_rune nodup_keys lookup
one_pair-IsTagMap = record {
  pairs = (
    record { key_plain = refl; key_given = λ h. ground arith; value_given = λ h. ground arith },
    tt,
  );
  keys = refl;
}

tag_list_to_map-map_to_tag_list_example : tag_list_to_map (map_to_tag_list one_pair) ≡ one_pair
tag_list_to_map-map_to_tag_list_example = tag_list_to_map-map_to_tag_list one_pair one_pair-IsTagMap

split_tag_iff_example :
    split_tag (codes "a=b=c") ≡ some (codes "a", codes "b=c")
    ↔ (codes "a=b=c" ≡ join_tag (codes "a", codes "b=c"))
      × (has_equals (codes "a") ≡ false)
      × (codes "a" ≢ [])
      × (codes "b=c" ≢ [])
split_tag_iff_example = split_tag_iff (codes "a=b=c") (codes "a") (codes "b=c")
