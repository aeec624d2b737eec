-- ===== src/Tests/Classes.antt =====
-- The validation, the finalizer and the hashes of node classes, and the garbage collection.
use karpenter_provider_linod.Tests.World.{claim}
use karpenter_provider_linod.Tests.Nodes.{ready_class, deleted_class}
use karpenter_provider_linod.Controllers.Drift.{annotation_hash, are_static_fields_drifted}
use karpenter_provider_linod.Controllers.Hashes.{hash_claim, hash_class}
use karpenter_provider_linod.Controllers.Hashes.Drifted.{hash_claim-drift}
use karpenter_provider_linod.Controllers.Garbage.{reconcile_garbage, Collector}
use karpenter_provider_linod.Controllers.Garbage.Safe.{reconcile_garbage-keeps, Survives}
use karpenter_provider_linod.Base.{
  ℕ, ◌+◌, ◌≡◌, refl, ap, subst, ◌⊎◌, true, false, not, Option, none, some, List, [], ◌∷◌, map,
  arith, if◌then◌else◌, Text, codes, text_eq, text_eq_iff, contains, lookup, pos,
}
use karpenter_provider_linod.Objects.{NodeClaim, standard}
use karpenter_provider_linod.Cache.Sample.{Sample, sample_cache}
use karpenter_provider_linod.NodeClasses.Types.{ConditionReason}
use karpenter_provider_linod.NodeClasses.Finalizer.{remove_finalizer, reconcile_class, ClassClient}
use karpenter_provider_linod.NodeClasses.Kept.{reconcile_class-finalizer}
use karpenter_provider_linod.Lke.State.{Result, ok, err}
use karpenter_provider_linod.NodeClasses.Checks.{instance_mode}
use karpenter_provider_linod.NodeClasses.Validation.{
  verdict_key, generated_tags, Validator, ValidationState,
}

abbrev validator : Validator
validator = record {
  World = ℕ;
  get_lke_cluster = λ id w. (ok (standard, codes "1.33"), w + 1);
  now = λ w. w;
  VerdictCache = Sample (Option ConditionReason);
  verdict_ops = sample_cache (Option ConditionReason) 1800000000000;
  keys = map (λ entry. entry.0);
  class_tags_hash = λ node_class tags. codes "0123456789abcdef";
  cluster_id = pos 5;
  cluster_name = codes "prod";
  mode = instance_mode;
  dry_run_disabled = false;
}

abbrev unchecked : ValidationState validator
unchecked = record { world = 0; cache = [] }

no_verdict :
    validator.verdict_ops.get unchecked.cache
      (validator.now unchecked.world)
      (verdict_key validator ready_class (generated_tags validator ready_class))
    ≡ none
unfolding lookup
no_verdict = refl

abbrev class_client : ClassClient validator
class_client = record {
  list_node_claims = λ name w. (ok (codes "web-1" ∷ []), w + 1);
  patch = λ node_class w. (ok tt, w + 1);
  patch_status = λ node_class w. (ok tt, w + 1);
  differs = λ before after. true;
}

reconcile_class-finalizer_example :
    (((class_client.list_node_claims (codes "default") 0).0 ≡ ok [])
      × (reconcile_class validator class_client deleted_class unchecked
          ≡ remove_finalizer validator class_client deleted_class (record unchecked { world = 1 })))
    ⊎ (((reconcile_class validator class_client deleted_class unchecked).node_class ≡ deleted_class)
        × ((reconcile_class validator class_client deleted_class unchecked).state
            ≡ record unchecked { world = 1 }))
reconcile_class-finalizer_example =
    reconcile_class-finalizer validator class_client deleted_class unchecked refl

abbrev hashed_claim : NodeClaim
hashed_claim = record claim { annotations = (annotation_hash, codes "99") ∷ [] }

old_hash : lookup annotation_hash hashed_claim.annotations ≡ some (codes "99")
unfolding lookup text_eq
old_hash = refl

hash_claim-drift_example :
    (are_static_fields_drifted
        (hash_claim (codes "123") (record { claim = hashed_claim; has_drifted = false }))
        (hash_class (codes "123") ready_class).meta
      ≡ false)
    × (are_static_fields_drifted
          (hash_claim (codes "123") (record { claim = hashed_claim; has_drifted = true }))
          (hash_class (codes "123") ready_class).meta
        ≡ not (text_eq (codes "123") (codes "99")))
hash_claim-drift_example =
    hash_claim-drift (codes "123") (codes "99") hashed_claim ready_class old_hash

others : Text → List Text → List Text
others id [] = []
others id (i ∷ w) = let rest = others id w in if text_eq i id then rest else i ∷ rest

-- the cloud has the instances of the world; the cluster manages one of them
abbrev collector : Collector
collector = record {
  World = List Text;
  list_cloud = λ w. (ok [], w);
  list_managed = λ w. (ok (codes "linode://70" ∷ []), w);
  list_nodes = λ w. (ok [], w);
  delete_claim = λ id w. (ok tt, others id w);
  delete_node = λ name w. (ok tt, w);
  now = λ w. 100000000000;
}

contains-others :
    (id j : Text) (w : List Text)
    → text_eq j id ≡ false
    → contains id w ≡ true
    → contains id (others j w) ≡ true
unfolding contains others
contains-others id j [] ne h = h
contains-others id j (i ∷ w) ne h =
    ground
      (arith, text_eq_iff i id, text_eq_iff i j, text_eq_iff j id, ne, h, contains-others id j w ne)

managed-Survives :
    Survives collector (λ w. contains (codes "linode://70") w ≡ true) (codes "linode://70")
managed-Survives = record {
  listing_cloud = λ w p. p;
  listing_managed = λ w p. p;
  listing_nodes = λ w p. p;
  deleting_node = λ name w p. p;
  deleting_claim = λ j w ne p. contains-others (codes "linode://70") j w ne p;
}

not_empty : text_eq (codes "linode://70") [] ≡ false
unfolding text_eq
not_empty = refl

listed : contains (codes "linode://70") (codes "linode://70" ∷ []) ≡ true
unfolding contains text_eq
listed = refl

ids_of : Result (List Text) → List Text
ids_of (ok ids) = ids
ids_of (err x) = []

ok_listed :
    (ids : List Text)
    → ok (codes "linode://70" ∷ []) ≡ ok ids
    → contains (codes "linode://70") ids ≡ true
unfolding ids_of
ok_listed ids same = subst (λ l. contains (codes "linode://70") l ≡ true) (ap ids_of same) listed

reconcile_garbage-keeps_example :
    contains (codes "linode://70") (reconcile_garbage collector 3 (codes "linode://70" ∷ [])).1
    ≡ true
reconcile_garbage-keeps_example =
    reconcile_garbage-keeps collector managed-Survives 3 (codes "linode://70" ∷ []) not_empty
      (λ v ids p same. ok_listed ids same) listed
