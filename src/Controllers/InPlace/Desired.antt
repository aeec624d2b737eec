-- ===== src/Controllers/InPlace/Desired.antt =====
-- The tags that an instance is to have after an update in place.
use karpenter_provider_linod.Base.{
  ◌≡◌, refl, ap, ◌∙◌, inl, inr, not, ◌&&◌, ◌||◌, none, List, [], ◌∷◌, arith, if◌then◌else◌,
  Bool-cases, All, Text, text_eq, text_eq_iff, contains, contains-append, Dict, lookup, delete,
  assign, or_else, nodup_keys, lookup-delete, delete-nodup_keys, lookup-assign, true, Option, some,
}
use karpenter_provider_linod.Errors.{is_some}
use karpenter_provider_linod.Tags.{split_tag, tag_list_to_map, opaque_tags}
use karpenter_provider_linod.Tags.Maps.{
  tag_list_to_map-IsTagMap, assign-IsTagMap, has_pair, contains-map_to_tag_list, IsTagPair,
  IsTagMap,
}
use karpenter_provider_linod.Tags.Dedupe.{contains-dedupe_tags}
use karpenter_provider_linod.Controllers.InPlace.{
  delete_keys, final_kv_tags, without_tags, desired_user_tags_for_instance,
}

lookup-delete_keys :
    (j : Text) (m previous : Dict Text)
    → lookup j (delete_keys m previous) ≡ (if is_some (lookup j previous) then none else lookup j m)
unfolding delete_keys lookup
lookup-delete_keys j m [] = refl
lookup-delete_keys j m ((k, v) ∷ previous) =
    lookup-delete_keys j (delete k m) previous ∙ ground (arith, lookup-delete j k m)

delete-pairs : (k : Text) (m : Dict Text) → All IsTagPair m → All IsTagPair (delete k m)
unfolding delete
delete-pairs k [] h = tt
delete-pairs k ((j, v) ∷ m) (p, h) = elim (Bool-cases (text_eq j k)) [
  | inl same ↦ rw same (delete-pairs k m h)
  | inr other' ↦ rw other' (p, delete-pairs k m h)
]

delete_keys-IsTagMap : (m previous : Dict Text) → IsTagMap m → IsTagMap (delete_keys m previous)
unfolding delete_keys
delete_keys-IsTagMap m [] h = h
delete_keys-IsTagMap m ((k, v) ∷ previous) h =
    delete_keys-IsTagMap (delete k m) previous
      (record { pairs = delete-pairs k m h.pairs; keys = delete-nodup_keys k m h.keys })

final_kv_tags-IsTagMap :
    (existing previous desired : List Text) → IsTagMap (final_kv_tags existing previous desired)
unfolding final_kv_tags
final_kv_tags-IsTagMap existing previous desired =
    assign-IsTagMap _ _
      (delete_keys-IsTagMap _ (tag_list_to_map previous) (
        assign-IsTagMap [] _ (record { pairs = tt; keys = unfold nodup_keys in refl })
          (tag_list_to_map-IsTagMap existing)))
      (tag_list_to_map-IsTagMap desired)

or_else-none : (o : Option Text) → or_else o none ≡ o
or_else-none none = refl
or_else-none (some a) = refl

lookup-copy : (j : Text) (m : Dict Text) → nodup_keys m ≡ true → lookup j (assign [] m) ≡ lookup j m
lookup-copy j m h = lookup-assign j [] m h ∙ unfold lookup in or_else-none (lookup j m)

lookup-final_kv_tags :
    (j : Text) (existing previous desired : List Text)
    → lookup j (final_kv_tags existing previous desired)
      ≡ or_else (lookup j (tag_list_to_map desired)) (
          if is_some (lookup j (tag_list_to_map previous))
          then none
          else lookup j (tag_list_to_map existing))
unfolding final_kv_tags
lookup-final_kv_tags j existing previous desired =
    lookup-assign j _ _ (tag_list_to_map-IsTagMap desired).keys
    ∙ ap (or_else (lookup j (tag_list_to_map desired))) (
        lookup-delete_keys j (assign [] (tag_list_to_map existing)) (tag_list_to_map previous)
        ∙ ap (λ o. if is_some (lookup j (tag_list_to_map previous)) then none else o)
            (lookup-copy j (tag_list_to_map existing) (tag_list_to_map-IsTagMap existing).keys))

contains-without_tags :
    (t : Text) (others tags : List Text)
    → contains t (without_tags others tags) ≡ (contains t tags && not (contains t others))
unfolding without_tags contains
contains-without_tags t others [] = refl
contains-without_tags t others (tag ∷ tags) =
    ground
      (arith, contains-without_tags t others tags, text_eq_iff tag t, ap (λ a. contains a others))

-- The pair of a key after the update is the one that the node class asks for, or else the one that the
-- instance has, unless the node class had asked for that key before. A tag is written iff it is not
-- empty, and it is such a pair, or it is an opaque tag that the node class asks for, or an opaque tag
-- of the instance that the node class had not asked for before.
pub desired_user_tags_for_instance_lem :
    (existing previous desired : List Text) (j t : Text)
    → (lookup j (final_kv_tags existing previous desired)
        ≡ or_else (lookup j (tag_list_to_map desired)) (
            if is_some (lookup j (tag_list_to_map previous))
            then none
            else lookup j (tag_list_to_map existing)))
      × (contains t (desired_user_tags_for_instance existing previous desired) ≡ (
          not (text_eq t [])
          && (has_pair (final_kv_tags existing previous desired) (split_tag t)
              || (contains t (opaque_tags existing) && not (contains t (opaque_tags previous))
                  || contains t (opaque_tags desired)))))
unfolding desired_user_tags_for_instance
desired_user_tags_for_instance_lem existing previous desired j t = (
  lookup-final_kv_tags j existing previous desired,
  contains-dedupe_tags t _
      ∙ rw
          (
            contains-append,
            contains-append,
            contains-map_to_tag_list t _ (final_kv_tags-IsTagMap existing previous desired),
            contains-without_tags,
          )
          (ground arith),
)
