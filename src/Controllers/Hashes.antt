-- ===== src/Controllers/Hashes.antt =====
-- The node class hash controller of pkg/controllers/nodeclass/hash/controller.go.
pub mod Drifted
use karpenter_provider_linod.Controllers.State.{Run, and_then, ret, throw, is_kube_not_found}
use karpenter_provider_linod.Controllers.Drift.{annotation_hash, annotation_hash_version}
use karpenter_provider_linod.Base.{
  Bool, false, ◌&&◌, Option, none, some, List, [], ◌∷◌, if◌then◌else◌, Text, text_eq, Dict, lookup,
  insert,
}
use karpenter_provider_linod.Errors.{Err, wrap_both}
use karpenter_provider_linod.Objects.{at, NodeClaim}
use karpenter_provider_linod.NodeClasses.Types.{
  class_hash, hash_version, ClassSpec, LinodeNodeClass,
}
use karpenter_provider_linod.Lke.State.{Result, ok, err}

-- a node claim, and whether its condition Drifted is set
pub record HashedClaim : Type 0 where
  pub claim : NodeClaim
  pub has_drifted : Bool

-- The Kubernetes client and the hash; what others do meanwhile is in the answers.
pub record HashClient : Type 1 where
  pub World : Type 0
  -- the node claims that refer to a node class
  pub list_node_claims : Text → World → Result (List HashedClaim) × World
  pub patch_node_claim : NodeClaim → World → Result (Unit {0}) × World
  pub patch_node_class : LinodeNodeClass → World → Result (Unit {0}) × World
  pub spec_hash : ClassSpec → Option Text → Text

abbrev pub is_current : Dict Text → Bool
is_current annotations = text_eq (at annotations annotation_hash_version) hash_version

abbrev pub annotated : NodeClaim → Dict Text → NodeClaim
annotated claim annotations = record claim { annotations = annotations }

-- the annotations of a node claim with an old version
unfoldable pub hash_claim : Text → HashedClaim → NodeClaim
unfolding insert
hash_claim hash c = annotated c.claim (
    if c.has_drifted
    then insert annotation_hash_version hash_version c.claim.annotations
    else insert annotation_hash hash
        (insert annotation_hash_version hash_version c.claim.annotations))

-- the annotations of the node class
unfoldable pub hash_class : Text → LinodeNodeClass → LinodeNodeClass
unfolding insert
hash_class hash node_class = record node_class {
  meta = record node_class.meta {
    annotations =
        insert annotation_hash_version hash_version
          (insert annotation_hash hash node_class.meta.annotations);
  };
}

-- both errors
abbrev both : Option Err → Option Err → Option Err
both none o = o
both (some x) none = some x
both (some x) (some y) = some (wrap_both x y)

-- client.IgnoreNotFound of the answer
abbrev error_unless_missing : Result (Unit {0}) → Option Err
error_unless_missing (ok u) = none
error_unless_missing (err x) = if is_kube_not_found x then none else some x

-- whether the annotations that an update writes are there already
unfoldable pub has_hash : Text → LinodeNodeClass → Bool
unfolding lookup text_eq
has_hash hash node_class =
    is_value hash (lookup annotation_hash node_class.meta.annotations)
    && is_value hash_version (lookup annotation_hash_version node_class.meta.annotations)
  where
    is_value : Text → Option Text → Bool
    is_value v none = false
    is_value v (some w) = text_eq v w

module _ (k : HashClient) where
  open k use {World}

  -- the loop over the node claims, with the errors so far
  unfoldable pub update_claims : Text → List HashedClaim → World → Option Err × World
  unfolding hash_claim at text_eq is_kube_not_found
  update_claims hash [] w = (none, w)
  update_claims hash (c ∷ cs) w =
      let (answer, patched) = k.patch_node_claim (hash_claim hash c) w in
      let (later, last) = update_claims hash cs patched in
      let (later_unpatched, last_unpatched) = update_claims hash cs w in
      if is_current c.claim.annotations
      then (later_unpatched, last_unpatched)
      else (both (error_unless_missing answer) later, last)

  abbrev claims_updated : Text → Result (List HashedClaim) → World → Option Err × World
  claims_updated hash (err x) w = (some x, w)
  claims_updated hash (ok cs) w = update_claims hash cs w

  -- updateNodeClaimHash
  unfoldable pub update_node_claim_hash : LinodeNodeClass → World → Option Err × World
  unfolding update_claims class_hash
  update_node_claim_hash node_class w =
      let (answer, v) = k.list_node_claims node_class.meta.name w in
      claims_updated (class_hash k.spec_hash node_class) answer v

  unfoldable pub patch_hashed : LinodeNodeClass → Run World LinodeNodeClass
  unfolding hash_class has_hash class_hash
  patch_hashed node_class w =
      let hashed = hash_class (class_hash k.spec_hash node_class) node_class in
      let (answer, v) = k.patch_node_class hashed w in
      if has_hash (class_hash k.spec_hash node_class) node_class
      then (ok hashed, w)
      else and_then answer (λ u. ret hashed) v

  abbrev or_fail : Option Err → Run World LinodeNodeClass → Run World LinodeNodeClass
  or_fail none m = m
  or_fail (some x) m = throw x

  -- Reconcile, with the node class that it leaves
  unfoldable pub reconcile_hash : LinodeNodeClass → Run World LinodeNodeClass
  unfolding update_node_claim_hash patch_hashed at text_eq
  reconcile_hash node_class w =
      let (error, v) = update_node_claim_hash node_class w in
      if is_current node_class.meta.annotations
      then patch_hashed node_class w
      else or_fail error (patch_hashed node_class) v
