-- ===== src/Controllers/Hashes/Drifted.antt =====
-- What a new hash version does to the drift of the node claims.
use karpenter_provider_linod.Controllers.Drift.{
  annotation_hash, are_static_fields_drifted, annotation_hash_version, static_drift,
}
use karpenter_provider_linod.Controllers.Hashes.{hash_claim, hash_class}
use karpenter_provider_linod.Base.{
  ◌≡◌, true, false, not, some, Text, text_eq, lookup, lookup-insert, refl, ◌∙◌, Option,
  text_eq_refl, Dict, insert,
}
use karpenter_provider_linod.Objects.{NodeClaim}
use karpenter_provider_linod.NodeClasses.Types.{LinodeNodeClass, hash_version}

-- the two annotations, after both orders of the writes, and after the version alone
keys_differ :
    (text_eq annotation_hash annotation_hash_version ≡ false)
    × (text_eq annotation_hash_version annotation_hash ≡ false)
unfolding text_eq
keys_differ = (refl, refl)

lookup-hash_under_version :
    (v h : Text) (m : Dict Text)
    → lookup annotation_hash (insert annotation_hash_version v m) ≡ lookup annotation_hash m
lookup-hash_under_version v h m =
    lookup-insert annotation_hash annotation_hash_version v m ∙ rw (keys_differ.1) refl

lookup-version_under_hash :
    (h : Text) (m : Dict Text)
    → lookup annotation_hash_version (insert annotation_hash h m) ≡ lookup annotation_hash_version m
lookup-version_under_hash h m =
    lookup-insert annotation_hash_version annotation_hash h m ∙ rw (keys_differ.0) refl

lookup-written : (k v : Text) (m : Dict Text) → lookup k (insert k v m) ≡ some v
lookup-written k v m = lookup-insert k k v m ∙ rw (text_eq_refl k) refl

drift_of :
    {a b c d : Option Text} {hash other_hash : Text}
    → a ≡ some hash
    → b ≡ some hash_version
    → c ≡ some other_hash
    → d ≡ some hash_version
    → static_drift a b c d ≡ not (text_eq hash other_hash)
drift_of p q r s = rw (p, q, r, s, text_eq_refl hash_version) refl

-- Once the hash controller has written the annotations of a node class and of a node claim with an old
-- version that has not drifted, the node claim has not drifted; one that has drifted keeps the hash that
-- it had, and with it the drift if that hash is another one.
pub hash_claim-drift :
    (hash old : Text) (claim : NodeClaim) (node_class : LinodeNodeClass)
    → lookup annotation_hash claim.annotations ≡ some old
    → (are_static_fields_drifted
          (hash_claim hash (record { claim = claim; has_drifted = false }))
          (hash_class hash node_class).meta
        ≡ false)
      × (are_static_fields_drifted
            (hash_claim hash (record { claim = claim; has_drifted = true }))
            (hash_class hash node_class).meta
          ≡ not (text_eq hash old))
unfolding are_static_fields_drifted hash_claim hash_class
hash_claim-drift hash old claim node_class h =
    let class_hash_lem =
      lookup-hash_under_version hash_version hash
        (insert annotation_hash hash node_class.meta.annotations)
      ∙ lookup-written annotation_hash hash node_class.meta.annotations in
    let class_version =
      lookup-written annotation_hash_version hash_version
        (insert annotation_hash hash node_class.meta.annotations) in
    let claim_version =
      lookup-version_under_hash hash (insert annotation_hash_version hash_version claim.annotations)
      ∙ lookup-written annotation_hash_version hash_version claim.annotations in
    (
      drift_of class_hash_lem class_version
            (lookup-written annotation_hash hash
              (insert annotation_hash_version hash_version claim.annotations))
            claim_version
          ∙ rw (text_eq_refl hash) refl,
      drift_of class_hash_lem class_version
          (lookup-hash_under_version hash_version hash claim.annotations ∙ h)
          (lookup-written annotation_hash_version hash_version claim.annotations),
    )
