-- ===== src/Tests/Cluster.antt =====
-- The controllers on a cluster whose requests all succeed.
use karpenter_provider_linod.Base.{
  ℕ, ◌+◌, ◌≡◌, refl, ◌↔◌, true, false, not, ◌&&◌, ◌||◌, none, some, List, [], ◌∷◌, if◌then◌else◌,
  Text, codes, text_eq, contains, Dict, lookup, or_else, pos, index_rune,
}
use karpenter_provider_linod.Errors.{is_some}
use karpenter_provider_linod.Objects.{at, new_lke_instance, NodeClaim, label_lke_managed, Instance}
use karpenter_provider_linod.Tags.{split_tag, tag_list_to_map, opaque_tags}
use karpenter_provider_linod.Tags.Maps.{has_pair}
use karpenter_provider_linod.Controllers.State.{parse_instance_id, Kube}
use karpenter_provider_linod.Lke.State.{ok}
use karpenter_provider_linod.Controllers.Drift.{
  annotation_hash, annotation_hash_version, are_static_fields_drifted,
  are_static_fields_drifted_iff,
}
use karpenter_provider_linod.Controllers.Tagging.{
  annotation_cluster_name_tagged, is_taggable, annotate, reconcile, reconcile-is_taggable,
  create_missing, patch_annotated, judge_tagged, reconcile_id, tag_instance,
}
use karpenter_provider_linod.Controllers.InPlace.{final_kv_tags, desired_user_tags_for_instance}
use karpenter_provider_linod.Controllers.InPlace.Desired.{desired_user_tags_for_instance_lem}
use karpenter_provider_linod.Tags.Cluster.{static_tags, get_tags, get_tags_for_lke}
use karpenter_provider_linod.Tags.Cluster.Static.{lookup-get_tags}
use karpenter_provider_linod.Offerings.{
  bump, offering_key, new_unavailable_offerings, on_offering_evicted, UnavailableOfferings,
}
use karpenter_provider_linod.Offerings.Evictions.{on_offering_evicted-offering_key}
use karpenter_provider_linod.Cache.Sample.{Sample}
use karpenter_provider_linod.Tests.World.{claim, node_class}

abbrev named : NodeClaim
named = record claim { provider_id = codes "linode://70"; node_name = codes "web-1" }

without_keys : Dict Text → Dict Text → Dict Text
unfolding lookup
without_keys [] existing = []
without_keys ((k, v) ∷ m) existing =
    let rest = without_keys m existing in
    if is_some (lookup k existing) then rest else (k, v) ∷ rest

abbrev bare : Instance
bare = new_lke_instance (pos 70) (codes "g6-standard-2") [] (codes "us-ord") none

-- the requests made are counted
abbrev calm : Kube
calm = record {
  World = ℕ;
  get_instance = λ id w. (ok bare, w + 1);
  create_tags = λ id tags w. (ok tt, w + 1);
  update_tags = λ id tags w. (ok tt, w + 1);
  get_node_class = λ name w. (ok node_class, w + 1);
  patch_node_claim = λ nc w. (ok tt, w + 1);
  encode = λ tags. [];
  decode = λ raw. some [];
  omit_by_keys = without_keys;
  cluster_name = codes "prod";
}

not_annotated : text_eq (at named.annotations annotation_cluster_name_tagged) (codes "true") ≡ false
unfolding at lookup text_eq
not_annotated = refl

reconciled : (reconcile calm named 0).0 ≡ ok (annotate named)
unfolding reconcile is_taggable at lookup text_eq parse_instance_id reconcile_id judge_tagged
    tag_instance create_missing without_keys contains tag_list_to_map new_lke_instance
    patch_annotated
reconciled = refl

reconcile-is_taggable_example : is_taggable (annotate named) ≡ is_taggable named
reconcile-is_taggable_example =
    reconcile-is_taggable calm named (annotate named) 0 not_annotated reconciled

abbrev hashed : Text → Dict Text
hashed h = (annotation_hash, h) ∷ (annotation_hash_version, codes "v1") ∷ []

are_static_fields_drifted_iff_example :
    are_static_fields_drifted
        (record claim { annotations = hashed (codes "1") })
        (record node_class { annotations = hashed (codes "2") })
      ≡ true
    ↔ ((v : Text) × (h : Text) × (h' : Text) × (lookup annotation_hash_version (hashed (codes "2"))
          ≡ some v)
        × (lookup annotation_hash_version (hashed (codes "1")) ≡ some v)
        × (lookup annotation_hash (hashed (codes "2")) ≡ some h)
        × (lookup annotation_hash (hashed (codes "1")) ≡ some h')
        × (text_eq h h' ≡ false))
are_static_fields_drifted_iff_example =
    are_static_fields_drifted_iff (record claim { annotations = hashed (codes "1") })
      (record node_class { annotations = hashed (codes "2") })

abbrev had : List Text
had = codes "team=web" ∷ codes "lke5" ∷ []

desired_user_tags_for_instance_lem_example :
    (lookup (codes "team") (final_kv_tags had had [])
      ≡ or_else (lookup (codes "team") (tag_list_to_map [])) (
          if is_some (lookup (codes "team") (tag_list_to_map had))
          then none
          else lookup (codes "team") (tag_list_to_map had)))
    × (contains (codes "lke5") (desired_user_tags_for_instance had had []) ≡ (
        not (text_eq (codes "lke5") [])
        && (has_pair (final_kv_tags had had []) (split_tag (codes "lke5"))
            || (contains (codes "lke5") (opaque_tags had)
                  && not (contains (codes "lke5") (opaque_tags had))
                || contains (codes "lke5") (opaque_tags [])))))
desired_user_tags_for_instance_lem_example =
    desired_user_tags_for_instance_lem had had [] (codes "team") (codes "lke5")

lookup-get_tags_example :
    (lookup (codes "team") (get_tags node_class claim (codes "prod"))
      ≡ or_else
          (lookup (codes "team") (static_tags node_class claim (codes "prod")))
          (lookup (codes "team") (tag_list_to_map node_class.tags)))
    × (lookup (codes "team") (get_tags_for_lke node_class claim (codes "prod")) ≡ (
        if text_eq label_lke_managed (codes "team")
        then some (codes "true")
        else lookup (codes "team") (static_tags node_class claim (codes "prod"))))
lookup-get_tags_example = lookup-get_tags node_class claim (codes "prod") (codes "team")

abbrev no_marks : UnavailableOfferings (Sample (Unit {0}))
no_marks = new_unavailable_offerings [] []

plain_type : index_rune (codes "g6-standard-2") b':' ≡ none
unfolding index_rune
plain_type = refl

plain_region : index_rune (codes "us-ord") b':' ≡ none
unfolding index_rune
plain_region = refl

on_offering_evicted-offering_key_example :
    on_offering_evicted no_marks (offering_key (codes "g6-standard-2") (codes "us-ord"))
    ≡ some (record no_marks {
      offering_seq_num = bump (codes "g6-standard-2") no_marks.offering_seq_num;
    })
on_offering_evicted-offering_key_example =
    on_offering_evicted-offering_key no_marks (codes "g6-standard-2") (codes "us-ord") plain_type
      plain_region
