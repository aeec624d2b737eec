-- ===== src/CloudProvider/Ready.antt =====
-- When Create asks for an instance.
use karpenter_provider_linod.Base.{
  ℕ, ◌≡◌, Bool, true, false, not, ◌&&◌, Option, none, some, ◌==◌, refl, ◌⊎◌, inl, inr, arith,
  Bool-cases, Text, if◌then◌else◌, ap, ◌∙◌,
}
use karpenter_provider_linod.Errors.{
  Err, message, create_error, node_class_not_ready, node_class_readiness_unknown, kube, not_found,
}
use karpenter_provider_linod.NodeClasses.Types.{
  ConditionStatus, Condition, LinodeNodeClass, is_true, is_false, is_unknown,
}
use karpenter_provider_linod.CloudProvider.Types.{Platform, CloudClaim}
use karpenter_provider_linod.CloudProvider.Provider.{
  readiness_of, status_error, create_ready, create_claim, readiness_error, guarded, unresolved,
}
use karpenter_provider_linod.Controllers.State.{and_then, ret, throw, map_err}
use karpenter_provider_linod.Objects.{NodeClaim}
use karpenter_provider_linod.Lke.State.{ok, err, Result}
use karpenter_provider_linod.CloudProvider.Find.{
  resolve_named, resolve_node_class_from_node_claim, unless_deleted, resolve_ref,
}

abbrev is_ready : ConditionStatus → Bool
is_ready is_true = true
is_ready is_false = false
is_ready is_unknown = false

-- Ready is true and was observed for the present generation; a missing condition is for Karpenter's
-- library to judge
abbrev pub allowed : Bool → Option Condition → ℕ → Bool
allowed nil_is_unknown none generation = not nil_is_unknown
allowed nil_is_unknown (some condition) generation =
    is_ready condition.status && condition.observed_generation == generation

status_error-ready :
    (status : ConditionStatus) (observed : Bool)
    → (is_ready status && observed) ≡ true
    → status_error status observed ≡ none
status_error-ready is_true observed h = ground (arith, h)
status_error-ready is_false observed h = absurd (ground (arith, h))
status_error-ready is_unknown observed h = absurd (ground (arith, h))

status_error-not_ready :
    (status : ConditionStatus) (observed : Bool)
    → (is_ready status && observed) ≡ false
    → (x : Err) × (status_error status observed ≡ some x)
status_error-not_ready is_true true h = absurd (ground (arith, h))
status_error-not_ready is_true false h = (node_class_not_ready message, refl)
status_error-not_ready is_false observed h = (node_class_not_ready message, refl)
status_error-not_ready is_unknown observed h =
    (create_error node_class_readiness_unknown message, refl)

module _ (p : Platform) where
  open p use {World}

  abbrev pub is_usable : LinodeNodeClass → Bool
  is_usable node_class =
      not node_class.meta.deleted
      && allowed p.nil_is_unknown node_class.ready node_class.meta.generation

  readiness_of-allowed :
      (ready : Option Condition) (generation : ℕ)
      → allowed p.nil_is_unknown ready generation ≡ true
      → readiness_of p ready generation ≡ none
  readiness_of-allowed none generation h = elim (Bool-cases p.nil_is_unknown) [
    | inl yes_unknown ↦ absurd (ground (arith, h, yes_unknown))
    | inr no_unknown ↦ rw no_unknown refl
  ]
  readiness_of-allowed (some condition) generation h = status_error-ready condition.status _ h

  readiness_of-refused :
      (ready : Option Condition) (generation : ℕ)
      → allowed p.nil_is_unknown ready generation ≡ false
      → (x : Err) × (readiness_of p ready generation ≡ some x)
  readiness_of-refused none generation h = elim (Bool-cases p.nil_is_unknown) [
    | inl yes_unknown ↦ (create_error node_class_readiness_unknown message, rw yes_unknown refl)
    | inr no_unknown ↦ absurd (ground (arith, h, no_unknown))
  ]
  readiness_of-refused (some condition) generation h = status_error-not_ready condition.status _ h

  -- the end of Create, on what the resolution of the node class gives
  abbrev after_resolution : NodeClaim → Result LinodeNodeClass × World → Result CloudClaim × World
  after_resolution node_claim r =
      and_then (map_err (unresolved p) r.0) (λ c. guarded p node_claim c (readiness_error p c)) r.1

  create_claim-lookup :
      (node_claim : NodeClaim) (name : Text) (w v : World) (node_class : LinodeNodeClass)
      → node_claim.node_class_ref ≡ some name
      → p.get_node_class name w ≡ (ok node_class, v)
      → create_claim p node_claim w ≡ after_resolution node_claim (unless_deleted p node_class v)
  unfolding create_claim resolve_node_class_from_node_claim resolve_named
  create_claim-lookup node_claim name w v node_class named found =
      ap (after_resolution node_claim) (
        ap (λ o. resolve_ref p o w) named
        ∙ ap (λ r. and_then r.0 (λ c. unless_deleted p c) r.1) found)

  abbrev by_deletion : NodeClaim → LinodeNodeClass → World → Bool → Result CloudClaim × World
  by_deletion node_claim node_class v deleted =
      after_resolution node_claim ((if deleted then throw (kube not_found) else ret node_class) v)

  not_deleted : (deleted rest : Bool) → (not deleted && rest) ≡ true → deleted ≡ false
  not_deleted deleted rest h = ground (arith, h)

  after_resolution-is_usable :
      (node_claim : NodeClaim) (v : World) (node_class : LinodeNodeClass)
      → is_usable node_class ≡ true
      → after_resolution node_claim (unless_deleted p node_class v)
        ≡ create_ready p node_claim node_class v
  unfolding readiness_error
  after_resolution-is_usable node_claim v node_class usable =
      ap (by_deletion node_claim node_class v) (not_deleted node_class.meta.deleted _ usable)
      ∙ ap (λ o. guarded p node_claim node_class o v)
          (readiness_of-allowed node_class.ready node_class.meta.generation
            (ground (arith, usable)))

  after_resolution-refused :
      (node_claim : NodeClaim) (v : World) (node_class : LinodeNodeClass)
      → is_usable node_class ≡ false
      → (x : Err) × (after_resolution node_claim (unless_deleted p node_class v) ≡ (err x, v))
  unfolding readiness_error
  after_resolution-refused node_claim v node_class unusable =
      elim (Bool-cases node_class.meta.deleted) [
        | inl gone ↦ (unresolved p (kube not_found), rw gone refl)
        | inr present ↦
            let (x, refused) =
              readiness_of-refused node_class.ready node_class.meta.generation
                (ground (arith, unusable, present)) in
            (
              x,
              ap (by_deletion node_claim node_class v) present
                  ∙ ap (λ o. guarded p node_claim node_class o v) refused,
            )
      ]

  -- When the node class of a claim is found but is being deleted, or its condition Ready is not true or
  -- was observed for another generation, Create fails and has done nothing but to look for the node
  -- class; otherwise it lists the instance types and asks for an instance.
  pub create_claim-is_usable :
      (node_claim : NodeClaim) (name : Text) (w v : World) (node_class : LinodeNodeClass)
      → node_claim.node_class_ref ≡ some name
      → p.get_node_class name w ≡ (ok node_class, v)
      → (is_usable node_class ≡ true
          × (create_claim p node_claim w ≡ create_ready p node_claim node_class v))
        ⊎ (is_usable node_class ≡ false × ((x : Err) × (create_claim p node_claim w ≡ (err x, v))))
  create_claim-is_usable node_claim name w v node_class named found =
      let looked = create_claim-lookup node_claim name w v node_class named found in
      elim (Bool-cases (is_usable node_class)) [
        | inl usable ↦
            inl (usable, looked ∙ after_resolution-is_usable node_claim v node_class usable)
        | inr unusable ↦
            let (x, refused) = after_resolution-refused node_claim v node_class unusable in
            inr (unusable, (x, looked ∙ refused))
      ]
