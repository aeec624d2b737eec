-- ===== src/Controllers/InPlace.antt =====
-- The in-place update controller, pkg/controllers/nodeclass/inplaceupdate/controller.go.
pub mod Desired
use karpenter_provider_linod.Controllers.State.{
  Run, ◌>>◌, ret, throw, wrapping, ignoring, is_kube_not_found, parse_instance_id, Kube,
}
use karpenter_provider_linod.Base.{
  Bool, true, false, ◌&&◌, Option, none, some, List, [], ◌∷◌, ◌++◌, if◌then◌else◌, Text, codes,
  text_eq, contains, Dict, lookup, delete, assign,
}
use karpenter_provider_linod.Errors.{is_node_claim_not_found, wrap}
use karpenter_provider_linod.Objects.{at, NodeClaim, NodeClass, Instance}
use karpenter_provider_linod.Tags.{tag_list_to_map, map_to_tag_list, dedupe_tags, opaque_tags}
use karpenter_provider_linod.Tags.Normal.{normalize_tag_list}
use karpenter_provider_linod.Lke.State.{Result, ok, err}

-- AnnotationLastAppliedUserTags
abbrev pub annotation_last_applied : Text
annotation_last_applied = codes "karpenter.k8s.linode/last-applied-user-tags"

-- `for key := range previous { delete(final, key) }`
unfoldable pub delete_keys : Dict Text → Dict Text → Dict Text
unfolding delete
delete_keys m [] = m
delete_keys m ((k, v) ∷ previous) = delete_keys (delete k m) previous

-- finalKVTags
unfoldable pub final_kv_tags : List Text → List Text → List Text → Dict Text
unfolding assign delete_keys tag_list_to_map
final_kv_tags existing previous desired =
    assign (delete_keys (assign [] (tag_list_to_map existing)) (tag_list_to_map previous))
      (tag_list_to_map desired)

-- the tags that are not among others
unfoldable pub without_tags : List Text → List Text → List Text
unfolding contains
without_tags others [] = []
without_tags others (tag ∷ tags) =
    let rest = without_tags others tags in if contains tag others then rest else tag ∷ rest

-- desiredUserTagsForInstance
unfoldable pub desired_user_tags_for_instance : List Text → List Text → List Text → List Text
unfolding final_kv_tags without_tags opaque_tags map_to_tag_list dedupe_tags
desired_user_tags_for_instance existing previous desired = dedupe_tags (
    map_to_tag_list (final_kv_tags existing previous desired)
    ++ without_tags (opaque_tags previous) (opaque_tags existing)
    ++ opaque_tags desired)

-- isUpdatable
unfoldable pub is_updatable : NodeClaim → Bool
is_updatable nc = if text_eq nc.provider_id [] then false else if nc.deleted then false else true

module _ (k : Kube) where
  abbrev or_empty : Option (List Text) → List Text
  or_empty none = []
  or_empty (some tags) = tags

  -- previousUserTags, with unmarshalUserTags
  unfoldable pub previous_user_tags : NodeClaim → List Text
  unfolding at
  previous_user_tags nc =
      let raw = at nc.annotations annotation_last_applied in
      if text_eq raw [] then [] else or_empty (k.decode raw)

  -- marshalUserTags: the encoding of a list of texts does not fail
  unfoldable pub marshal_user_tags : List Text → Text
  unfolding normalize_tag_list
  marshal_user_tags tags = k.encode (normalize_tag_list tags)

  unfoldable pub lists_equal : List Text → List Text → Bool
  lists_equal [] [] = true
  lists_equal (a ∷ as') (b ∷ bs) = text_eq a b && lists_equal as' bs
  lists_equal _ _ = false

  -- the update of the instance, unless it has the tags
  unfoldable pub write_tags : Text → List Text → List Text → Run k.World (Unit {0})
  write_tags id current final =
      if lists_equal current final then ret tt else wrapping (k.update_tags id final)

  abbrev with_last_applied : NodeClaim → Text → NodeClaim
  with_last_applied nc raw = record nc {
    annotations = assign nc.annotations ((annotation_last_applied, raw) ∷ []);
  }

  -- the patch, unless the annotation was there
  unfoldable pub patch_last_applied : NodeClaim → Text → Run k.World (Unit {0})
  patch_last_applied nc raw = elim (lookup annotation_last_applied nc.annotations) [
    | none ↦ ignoring is_kube_not_found tt (k.patch_node_claim (with_last_applied nc raw))
    | some old ↦
        if text_eq old raw
        then ret tt
        else ignoring is_kube_not_found tt (k.patch_node_claim (with_last_applied nc raw))
  ]

  unfoldable pub update_found :
      NodeClaim → NodeClass → Text → Result Instance → Run k.World (Unit {0})
  update_found nc node_class id (err x) =
      if is_node_claim_not_found x then ret tt else throw (wrap x)
  update_found nc node_class id (ok node) = do
    let final =
        normalize_tag_list
          (desired_user_tags_for_instance node.tags (previous_user_tags nc) node_class.tags)
    write_tags id (normalize_tag_list node.tags) final
    patch_last_applied nc (marshal_user_tags node_class.tags)

  unfoldable pub update_id : NodeClaim → NodeClass → Option Text → Run k.World (Unit {0})
  update_id nc node_class none = ret tt
  update_id nc node_class (some id) =
      λ w. update_found nc node_class id (k.get_instance id w).0 (k.get_instance id w).1

  -- updateNodeClaimTags
  unfoldable pub update_node_claim_tags : NodeClaim → NodeClass → Run k.World (Unit {0})
  update_node_claim_tags nc node_class = update_id nc node_class (parse_instance_id nc.provider_id)

  unfoldable pub judge_node_class : NodeClaim → Result NodeClass → Run k.World (Unit {0})
  judge_node_class nc (err x) = if is_kube_not_found x then ret tt else throw x
  judge_node_class nc (ok node_class) =
      ignoring is_node_claim_not_found tt (update_node_claim_tags nc node_class)

  abbrev ref_name : Option Text → Text
  ref_name none = []
  ref_name (some name) = name

  -- Reconcile
  unfoldable pub reconcile_tags : NodeClaim → Run k.World (Unit {0})
  reconcile_tags nc w =
      let found = k.get_node_class (ref_name nc.node_class_ref) w in
      judge_node_class nc found.0 found.1
