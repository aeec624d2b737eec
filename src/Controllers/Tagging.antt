-- ===== src/Controllers/Tagging.antt =====
-- The tagging controller, pkg/controllers/nodeclaim/tagging/controller.go.
pub mod Missing
use karpenter_provider_linod.Controllers.State.{
  Run, ◌>>=◌, ◌>>◌, ret, throw, wrapping, ignoring, is_kube_not_found, parse_instance_id, Kube,
  and_then,
}
use karpenter_provider_linod.Base.{
  Bool, true, false, not, ◌&&◌, Option, none, some, [], ◌∷◌, if◌then◌else◌, Text, codes, text_eq,
  Dict, assign, ◌≡◌, refl, ap, arith, insert, lookup-insert, sym, ◌∙◌, ◌⊎◌, inl, inr, Bool-cases,
}
use karpenter_provider_linod.Errors.{is_node_claim_not_found}
use karpenter_provider_linod.Objects.{lke_cluster_name_tag_key, name_tag_key, at, NodeClaim}
use karpenter_provider_linod.Tags.{tag_list_to_map}
use karpenter_provider_linod.Lke.State.{Result, ok, err}

-- AnnotationInstanceTagged and AnnotationClusterNameTaggedCompatability
abbrev pub annotation_instance_tagged : Text
annotation_instance_tagged = codes "karpenter.k8s.linode/tagged"

abbrev pub annotation_cluster_name_tagged : Text
annotation_cluster_name_tagged = codes "compatibility.karpenter.k8s.linode/cluster-name-tagged"

-- isTaggable
unfoldable pub is_taggable : NodeClaim → Bool
is_taggable nc =
    if text_eq (at nc.annotations annotation_instance_tagged) (codes "true")
      && text_eq (at nc.annotations annotation_cluster_name_tagged) (codes "true")
    then false
    else if text_eq nc.node_name []
    then false
    else if nc.deleted
    then false
    else true

-- the annotation that a node claim is given
unfoldable pub annotate : NodeClaim → NodeClaim
unfolding assign
annotate nc = record nc {
  annotations = assign nc.annotations ((annotation_instance_tagged, codes "true") ∷ []);
}

module _ (k : Kube) where
  -- the tags that the instance of a node claim is to have
  abbrev pub wanted_tags : NodeClaim → Dict Text
  wanted_tags nc = (name_tag_key, nc.node_name) ∷ (lke_cluster_name_tag_key, k.cluster_name) ∷ []

  unfoldable pub create_missing : Text → Dict Text → Run k.World (Unit {0})
  create_missing id [] = ret tt
  create_missing id (kv ∷ tags) = wrapping (k.create_tags id (kv ∷ tags))

  -- tagInstance
  unfoldable pub tag_instance : NodeClaim → Text → Run k.World (Unit {0})
  tag_instance nc id = do
    node ← wrapping (k.get_instance id)
    create_missing id (k.omit_by_keys (wanted_tags nc) (tag_list_to_map node.tags))

  -- the last steps of Reconcile: the patch, unless the annotation was there
  unfoldable pub patch_annotated : NodeClaim → Run k.World NodeClaim
  patch_annotated nc =
      if text_eq (at nc.annotations annotation_instance_tagged) (codes "true")
      then ret (annotate nc)
      else do ignoring is_kube_not_found tt (k.patch_node_claim (annotate nc)); ret (annotate nc)

  unfoldable pub judge_tagged : NodeClaim → Result (Unit {0}) → Run k.World NodeClaim
  judge_tagged nc (err x) = if is_node_claim_not_found x then ret nc else throw x
  judge_tagged nc (ok _) = patch_annotated nc

  unfoldable pub reconcile_id : NodeClaim → Option Text → Run k.World NodeClaim
  reconcile_id nc none = ret nc
  reconcile_id nc (some id) = λ w. judge_tagged nc (tag_instance nc id w).0 (tag_instance nc id w).1

  -- Reconcile; the result is the node claim as the controller leaves it
  unfoldable pub reconcile : NodeClaim → Run k.World NodeClaim
  reconcile nc =
      if not (is_taggable nc) then ret nc else reconcile_id nc (parse_instance_id nc.provider_id)

at-insert :
    (j k v : Text) (m : Dict Text) → at (insert k v m) j ≡ (if text_eq k j then v else at m j)
unfolding at
at-insert j k v m = ground (arith, lookup-insert j k v m)

other_annotation : text_eq annotation_instance_tagged annotation_cluster_name_tagged ≡ false
unfolding text_eq
other_annotation = refl

-- whether a node claim without the annotation of the cluster name can be tagged
is_taggable_without :
    (nc : NodeClaim)
    → text_eq (at nc.annotations annotation_cluster_name_tagged) (codes "true") ≡ false
    → is_taggable nc
      ≡ (if text_eq nc.node_name [] then false else if nc.deleted then false else true)
unfolding is_taggable
is_taggable_without nc h = ground (arith, h)

at-annotate :
    (nc : NodeClaim)
    → at (annotate nc).annotations annotation_cluster_name_tagged
      ≡ at nc.annotations annotation_cluster_name_tagged
unfolding annotate assign
at-annotate nc =
    at-insert annotation_cluster_name_tagged annotation_instance_tagged (codes "true")
      nc.annotations
    ∙ rw other_annotation refl

is_taggable-annotate :
    (nc : NodeClaim)
    → text_eq (at nc.annotations annotation_cluster_name_tagged) (codes "true") ≡ false
    → is_taggable (annotate nc) ≡ is_taggable nc
is_taggable-annotate nc h =
    is_taggable_without (annotate nc) (ap (λ a. text_eq a (codes "true")) (at-annotate nc) ∙ h)
    ∙ unfold annotate in sym (is_taggable_without nc h)

module _ (k : Kube) where
  -- the node claim as it was, or annotated
  Left : NodeClaim → NodeClaim → Type 0
  Left nc nc' = (nc' ≡ nc) ⊎ (nc' ≡ annotate nc)

  ok_inj : {A : Type 0} (a b : A) → ok a ≡ ok b → b ≡ a
  ok_inj a b h = ground arith

  patched :
      (nc nc' : NodeClaim) (a : Result (Unit {0})) (w : k.World)
      → (and_then a (λ _. ret (annotate nc)) w).0 ≡ ok nc'
      → Left nc nc'
  unfolding Left
  patched nc nc' (ok _) w h = inr (ok_inj _ _ h)
  patched nc nc' (err x) w h = absurd (ground arith)

  patch_annotated-Left :
      (nc nc' : NodeClaim) (w : k.World) → (patch_annotated k nc w).0 ≡ ok nc' → Left nc nc'
  unfolding patch_annotated Left
  patch_annotated-Left nc nc' w h =
      elim (Bool-cases (text_eq (at nc.annotations annotation_instance_tagged) (codes "true"))) [
        | inl there ↦ inr (ok_inj _ _ (rw there at h))
        | inr new ↦
            patched nc nc' (ignoring is_kube_not_found tt (k.patch_node_claim (annotate nc)) w).0 _
              (rw new at h)
      ]

  judge_tagged-Left :
      (nc nc' : NodeClaim) (a : Result (Unit {0})) (w : k.World)
      → (judge_tagged k nc a w).0 ≡ ok nc'
      → Left nc nc'
  unfolding judge_tagged
  judge_tagged-Left nc nc' (ok _) w h = patch_annotated-Left nc nc' w h
  judge_tagged-Left nc nc' (err x) w h = elim (Bool-cases (is_node_claim_not_found x)) [
    | inl gone ↦ unfold Left in inl (ok_inj _ _ (rw gone at h))
    | inr failed ↦ absurd (ground arith)
  ]

  reconcile_id-Left :
      (nc nc' : NodeClaim) (o : Option Text) (w : k.World)
      → (reconcile_id k nc o w).0 ≡ ok nc'
      → Left nc nc'
  unfolding reconcile_id
  reconcile_id-Left nc nc' none w h = unfold Left in inl (ok_inj _ _ h)
  reconcile_id-Left nc nc' (some id) w h = judge_tagged-Left nc nc' _ _ h

  reconcile-Left : (nc nc' : NodeClaim) (w : k.World) → (reconcile k nc w).0 ≡ ok nc' → Left nc nc'
  unfolding reconcile
  reconcile-Left nc nc' w h = elim (Bool-cases (is_taggable nc)) [
    | inl can ↦ reconcile_id-Left nc nc' (parse_instance_id nc.provider_id) w (rw can at h)
    | inr not_now ↦ unfold Left in inl (ok_inj _ _ (rw not_now at h))
  ]

  -- If a node claim does not have the annotation of the cluster name set to true, then after every
  -- Reconcile that succeeds it can be tagged iff it could be tagged before, whether its instance was
  -- tagged or not.
  pub reconcile-is_taggable :
      (nc nc' : NodeClaim) (w : k.World)
      → text_eq (at nc.annotations annotation_cluster_name_tagged) (codes "true") ≡ false
      → (reconcile k nc w).0 ≡ ok nc'
      → is_taggable nc' ≡ is_taggable nc
  unfolding Left
  reconcile-is_taggable nc nc' w h r = elim (reconcile-Left nc nc' w r) [
    | inl same ↦ ap is_taggable same
    | inr annotated ↦ ap is_taggable annotated ∙ is_taggable-annotate nc h
  ]
