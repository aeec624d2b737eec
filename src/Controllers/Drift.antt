-- ===== src/Controllers/Drift.antt =====
-- areStaticFieldsDrifted of pkg/cloudprovider/drift.go.
use karpenter_provider_linod.Base.{
  ◌≡◌, ◌↔◌, Bool, true, false, not, Option, some, if◌then◌else◌, Text, codes, text_eq, lookup, refl,
  sym, ap, none, arith, text_eq_iff,
}
use karpenter_provider_linod.Objects.{NodeClaim, NodeClass}

-- AnnotationLinodeNodeClassHash and AnnotationLinodeNodeClassHashVersion
abbrev pub annotation_hash : Text
annotation_hash = codes "karpenter.k8s.linode/linodenodeclass-hash"

abbrev pub annotation_hash_version : Text
annotation_hash_version = codes "karpenter.k8s.linode/linodenodeclass-hash-version"

abbrev pub static_drift : Option Text → Option Text → Option Text → Option Text → Bool
static_drift (some class_hash) (some class_version) (some claim_hash) (some claim_version) =
    if not (text_eq class_version claim_version) then false else not (text_eq class_hash claim_hash)
static_drift _ _ _ _ = false

-- whether the answer is NodeClassDrift, and not the empty reason
unfoldable pub are_static_fields_drifted : NodeClaim → NodeClass → Bool
unfolding lookup
are_static_fields_drifted node_claim node_class =
    static_drift (lookup annotation_hash node_class.annotations)
      (lookup annotation_hash_version node_class.annotations)
      (lookup annotation_hash node_claim.annotations)
      (lookup annotation_hash_version node_claim.annotations)

static_drift_iff :
    (o o' p p' : Option Text)
    → static_drift o p o' p' ≡ true ↔ (
        (v : Text) × (h : Text) × (h' : Text) × (p ≡ some v)
        × (p' ≡ some v)
        × (o ≡ some h)
        × (o' ≡ some h')
        × (text_eq h h' ≡ false))
static_drift_iff none o' p p' =
    (λ h. absurd (ground arith), λ (v, h, h', a, b, c, d, ne). absurd (ground arith))
static_drift_iff (some g) o' none p' =
    (λ h. absurd (ground arith), λ (v, h, h', a, b, c, d, ne). absurd (ground arith))
static_drift_iff (some g) none (some u) p' =
    (λ h. absurd (ground arith), λ (v, h, h', a, b, c, d, ne). absurd (ground arith))
static_drift_iff (some g) (some g') (some u) none =
    (λ h. absurd (ground arith), λ (v, h, h', a, b, c, d, ne). absurd (ground arith))
static_drift_iff (some g) (some g') (some u) (some u') = (
  λ drifted. (
    u,
    g,
    g',
    refl,
    ap some (sym ((text_eq_iff u u').0 (ground arith))),
    refl,
    refl,
    ground arith,
  ),
  λ (v, h, h', a, b, c, d, ne). ground (arith, text_eq_iff u u'),
)

-- A node claim has drifted exactly when it and its node class have one hash version and each a hash,
-- and the hashes differ.
pub are_static_fields_drifted_iff :
    (node_claim : NodeClaim) (node_class : NodeClass)
    → are_static_fields_drifted node_claim node_class ≡ true ↔ (
        (v : Text) × (h : Text) × (h' : Text) × (lookup annotation_hash_version
            node_class.annotations
          ≡ some v)
        × (lookup annotation_hash_version node_claim.annotations ≡ some v)
        × (lookup annotation_hash node_class.annotations ≡ some h)
        × (lookup annotation_hash node_claim.annotations ≡ some h')
        × (text_eq h h' ≡ false))
unfolding are_static_fields_drifted
are_static_fields_drifted_iff node_claim node_class = static_drift_iff _ _ _ _
