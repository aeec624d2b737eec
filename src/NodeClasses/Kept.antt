-- ===== src/NodeClasses/Kept.antt =====
-- When a node class that is being deleted goes.
use karpenter_provider_linod.Base.{◌≡◌, refl, ◌⊎◌, inl, inr, true, List, [], ◌∷◌, Text}
use karpenter_provider_linod.NodeClasses.Types.{LinodeNodeClass}
use karpenter_provider_linod.NodeClasses.Finalizer.{
  remove_finalizer, finalize_unused, finalize, reconcile_class, ClassClient,
}
use karpenter_provider_linod.Lke.State.{Result, ok, err}
use karpenter_provider_linod.NodeClasses.Validation.{Validator, ValidationState}

module _ (v : Validator) (k : ClassClient v) where
  finalize_unused-cases :
      (node_class : LinodeNodeClass) (r : Result (List Text)) (s : ValidationState v)
      → ((r ≡ ok []) × (finalize_unused v k node_class r s ≡ remove_finalizer v k node_class s))
        ⊎ (((finalize_unused v k node_class r s).node_class ≡ node_class)
            × ((finalize_unused v k node_class r s).state ≡ s))
  finalize_unused-cases node_class (err x) s = inr (refl, refl)
  finalize_unused-cases node_class (ok []) s = inl (refl, refl)
  finalize_unused-cases node_class (ok (name ∷ names)) s = inr (refl, refl)

  reconcile_class-deleted :
      (node_class : LinodeNodeClass) (s : ValidationState v)
      → node_class.meta.deleted ≡ true
      → reconcile_class v k node_class s ≡ finalize v k node_class s
  unfolding reconcile_class
  reconcile_class-deleted node_class s gone = rw gone refl

  -- Reconcile removes the finalizer of a node class that is being deleted only after the list of its node
  -- claims was read and is empty; otherwise it only reads that list: the node class, the cache of
  -- verdicts and all else stay as they are.
  pub reconcile_class-finalizer :
      (node_class : LinodeNodeClass) (s : ValidationState v)
      → node_class.meta.deleted ≡ true
      → (((k.list_node_claims node_class.meta.name s.world).0 ≡ ok [])
          × (reconcile_class v k node_class s
              ≡ remove_finalizer v k node_class
                  (record s { world = (k.list_node_claims node_class.meta.name s.world).1 })))
        ⊎ (((reconcile_class v k node_class s).node_class ≡ node_class)
            × ((reconcile_class v k node_class s).state
                ≡ record s { world = (k.list_node_claims node_class.meta.name s.world).1 }))
  unfolding finalize
  reconcile_class-finalizer node_class s gone = rw (reconcile_class-deleted node_class s gone) (
      finalize_unused-cases node_class (k.list_node_claims node_class.meta.name s.world).0
        (record s { world = (k.list_node_claims node_class.meta.name s.world).1 }))
