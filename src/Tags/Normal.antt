-- ===== src/Tags/Normal.antt =====
-- normalizeTagList of pkg/controllers/nodeclass/inplaceupdate/controller.go, also the first steps of
-- marshalUserTags: the tags of a list in a normal form.
use karpenter_provider_linod.Base.{
  ◌≡◌, ◌↔◌, Bool, true, not, ◌&&◌, none, some, List, [], ◌++◌, Text, text_eq, contains,
  contains-append, sort, is_sorted, nodup, contains-sort, sym, ap, ◌∙◌, ◌≢◌, inl, inr, arith,
  Option-cases, text_eq_iff, sort-is_sorted, sort-nodup, sorted_unique,
}
use karpenter_provider_linod.Tags.{
  split_tag, tag_list_to_map, map_to_tag_list, dedupe_tags, opaque_tags,
}
use karpenter_provider_linod.Tags.Maps.{
  tag_list_to_map-IsTagMap, has_pair, contains-map_to_tag_list, contains-opaque_tags,
}
use karpenter_provider_linod.Tags.Dedupe.{contains-dedupe_tags, dedupe_tags-nodup}

unfoldable pub normalize_tag_list : List Text → List Text
normalize_tag_list tags =
    sort (dedupe_tags (map_to_tag_list (tag_list_to_map tags) ++ opaque_tags tags))

-- what a list of tags says of one tag: a pair is there if its key has its value last in the list
abbrev pub effective : List Text → Text → Bool
effective tags t = elim (split_tag t) [
  | none ↦ not (text_eq t []) && contains t tags
  | some kv ↦ has_pair (tag_list_to_map tags) (some kv)
]

split_given : (t k v : Text) → split_tag t ≡ some (k, v) → t ≢ []
split_given t k v e empty = unfold split_tag in cc (ap split_tag empty)

normalize_tag_list-is_sorted : (tags : List Text) → is_sorted (normalize_tag_list tags) ≡ true
unfolding normalize_tag_list
normalize_tag_list-is_sorted tags = sort-is_sorted _

normalize_tag_list-nodup : (tags : List Text) → nodup (normalize_tag_list tags) ≡ true
unfolding normalize_tag_list
normalize_tag_list-nodup tags = sort-nodup _ (dedupe_tags-nodup _)

pub contains-normalize_tag_list :
    (t : Text) (tags : List Text) → contains t (normalize_tag_list tags) ≡ effective tags t
unfolding normalize_tag_list
contains-normalize_tag_list t tags =
    rw
      (
        contains-sort,
        contains-dedupe_tags,
        contains-append,
        contains-opaque_tags,
        contains-map_to_tag_list t (tag_list_to_map tags) (tag_list_to_map-IsTagMap tags),
      )
      (elim (Option-cases (split_tag t)) [
        | inl opaque ↦ rw opaque (ground arith)
        | inr ((k, v), e) ↦ rw e (ground (arith, split_given t k v e, text_eq_iff t []))
      ])

-- Equal normal forms, and the same effective tags, are one thing.
pub normalize_tag_list_eq_iff :
    (tags others : List Text)
    → (normalize_tag_list tags ≡ normalize_tag_list others)
      ↔ ((t : Text) → effective tags t ≡ effective others t)
normalize_tag_list_eq_iff tags others = (
  (λ e t.
      sym (contains-normalize_tag_list t tags)
      ∙ ap (contains t) e
      ∙ contains-normalize_tag_list t others),
  λ same.
      sorted_unique (normalize_tag_list tags) (normalize_tag_list others)
        (normalize_tag_list-is_sorted tags) (normalize_tag_list-is_sorted others)
        (normalize_tag_list-nodup tags) (normalize_tag_list-nodup others)
        λ t.
          contains-normalize_tag_list t tags ∙ same t ∙ sym (contains-normalize_tag_list t others),
)

-- The normal form is sorted and has no repetition, its members are the effective tags, and two tag
-- lists have the same normal form exactly when the same tags are effective in them.
pub normalize_tag_list_lem :
    (tags others : List Text) (t : Text)
    → (is_sorted (normalize_tag_list tags) ≡ true)
      × (nodup (normalize_tag_list tags) ≡ true)
      × (contains t (normalize_tag_list tags) ≡ effective tags t)
      × ((normalize_tag_list tags ≡ normalize_tag_list others)
          ↔ ((u : Text) → effective tags u ≡ effective others u))
normalize_tag_list_lem tags others t = (
  normalize_tag_list-is_sorted tags,
  normalize_tag_list-nodup tags,
  contains-normalize_tag_list t tags,
  normalize_tag_list_eq_iff tags others,
)
