-- ===== src/Tags.antt =====
-- pkg/utils/utils.go: the tags of Linode instances and node pools, `key=value` texts or opaque ones.
pub mod Split
pub mod Dedupe
pub mod Maps
pub mod Normal
pub mod Claim
pub mod Valid
pub mod Cluster
use karpenter_provider_linod.Base.{
  ℕ, ◌+◌, ◌||◌, Option, none, some, List, [], ◌∷◌, ◌++◌, ◌==◌, if◌then◌else◌, length, take, drop,
  Text, text_eq, contains, index_rune, Dict, insert,
}

abbrev equals_sign : ℕ
equals_sign = b'='

cut_at : Text → Option ℕ → Option (Text × Text)
cut_at tag none = none
cut_at tag (some index) =
    if index == 0 || index + 1 == length tag
    then none
    else some (take index tag, drop (index + 1) tag)

-- splitTag; `none` is ok = false
unfoldable pub split_tag : Text → Option (Text × Text)
unfolding cut_at index_rune
split_tag tag = cut_at tag (index_rune tag equals_sign)

-- fmt.Sprintf("%s=%s", k, v)
abbrev pub join_tag : Text × Text → Text
join_tag (k, v) = k ++ equals_sign ∷ v

insert_split : Option (Text × Text) → Dict Text → Dict Text
insert_split none tag_map = tag_map
insert_split (some (key, value)) tag_map = insert key value tag_map

-- the loop of TagListToMap
unfoldable pub add_tags : Dict Text → List Text → Dict Text
unfolding insert_split
add_tags tag_map [] = tag_map
add_tags tag_map (tag ∷ tags) = add_tags (insert_split (split_tag tag) tag_map) tags

unfoldable pub tag_list_to_map : List Text → Dict Text
unfolding add_tags
tag_list_to_map tags = add_tags [] tags

unfoldable pub map_to_tag_list : Dict Text → List Text
map_to_tag_list [] = []
map_to_tag_list (kv ∷ m) = join_tag kv ∷ map_to_tag_list m

-- the loop of DedupeTags over the set of tags seen and the tags kept
dedupe_from : List Text → List Text → List Text
unfolding contains
dedupe_from seen [] = []
dedupe_from seen (tag ∷ tags) =
    let kept = dedupe_from (tag ∷ seen) tags in
    let skipped = dedupe_from seen tags in
    if text_eq tag [] || contains tag seen then skipped else tag ∷ kept

unfoldable pub dedupe_tags : List Text → List Text
unfolding dedupe_from
dedupe_tags tags = dedupe_from [] tags

unfoldable pub opaque_tags : List Text → List Text
opaque_tags [] = []
opaque_tags (tag ∷ tags) =
    let rest = opaque_tags tags in elim (split_tag tag) [ some _ ↦ rest | none ↦ tag ∷ rest ]
