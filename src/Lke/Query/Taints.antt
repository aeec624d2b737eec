-- ===== src/Lke/Query/Taints.antt =====
-- The registration of ephemeral taints.
use karpenter_provider_linod.Lke.Query.{
  same_taint, knows_taint, register_taints, common_known_ephemeral_taints,
  register_known_ephemeral_taints, enterprise_known_ephemeral_taints,
}
use karpenter_provider_linod.Base.{
  ◌≡◌, refl, ◌∙◌, inl, inr, true, ◌||◌, List, [], ◌∷◌, ◌++◌, arith, Bool-cases, All, text_eq_refl,
  sym, ap, subst, if◌then◌else◌,
}
use karpenter_provider_linod.Objects.{Taint, Tier}
use karpenter_provider_linod.Lke.Pools.{is_enterprise}

same_taint_refl : (t : Taint) → same_taint t t ≡ true
unfolding same_taint
same_taint_refl t = rw (text_eq_refl t.key, text_eq_refl t.value, text_eq_refl t.effect) refl

knows_taint-append :
    (t : Taint) (xs ys : List Taint)
    → knows_taint t (xs ++ ys) ≡ (knows_taint t xs || knows_taint t ys)
unfolding knows_taint
knows_taint-append t [] ys = refl
knows_taint-append t (x ∷ xs) ys = ground (arith, knows_taint-append t xs ys)

-- all of the taints are known
abbrev pub Knows : List Taint → List Taint → Type 0
Knows ts known = All (λ t. knows_taint t known ≡ true) ts

register_taints-keeps :
    (t : Taint) (ts known : List Taint)
    → knows_taint t known ≡ true
    → knows_taint t (register_taints ts known) ≡ true
unfolding register_taints
register_taints-keeps t [] known h = h
register_taints-keeps t (x ∷ ts) known h = elim (Bool-cases (knows_taint x known)) [
  | inl old ↦ rw old (register_taints-keeps t ts known h)
  | inr new ↦ rw new (
      register_taints-keeps t ts (known ++ x ∷ [])
        (knows_taint-append t known (x ∷ []) ∙ rw h refl))
]

register_taints-next :
    (x : Taint) (ts known : List Taint)
    → register_taints (x ∷ ts) known
      ≡ register_taints ts (if knows_taint x known then known else known ++ x ∷ [])
unfolding register_taints
register_taints-next x ts known = refl

knows_taint-registered :
    (x : Taint) (known : List Taint)
    → knows_taint x (if knows_taint x known then known else known ++ x ∷ []) ≡ true
knows_taint-registered x known = elim (Bool-cases (knows_taint x known)) [
  | inl old ↦ rw (old, old) refl
  | inr new ↦ rw new (
      knows_taint-append x known (x ∷ []) ∙ unfold knows_taint in rw same_taint_refl (ground arith))
]

register_taints-Knows : (ts known : List Taint) → Knows ts (register_taints ts known)
register_taints-Knows [] known = tt
register_taints-Knows (x ∷ ts) known =
    let known' = if knows_taint x known then known else known ++ x ∷ [] in
    subst (Knows (x ∷ ts)) (sym (register_taints-next x ts known)) (
      register_taints-keeps x ts known' (knows_taint-registered x known),
      register_taints-Knows ts known',
    )

Knows-register_taints :
    (ts us known : List Taint) → Knows ts known → Knows ts (register_taints us known)
Knows-register_taints [] us known h = tt
Knows-register_taints (x ∷ ts) us known (a, h) =
    (register_taints-keeps x us known a, Knows-register_taints ts us known h)

register_taints-known : (ts known : List Taint) → Knows ts known → register_taints ts known ≡ known
unfolding register_taints
register_taints-known [] known h = refl
register_taints-known (x ∷ ts) known (old, h) = rw old (register_taints-known ts known h)

-- After the taints of a tier are registered, each of the common taints is known, and registering
-- them once more changes nothing.
pub register_known_ephemeral_taints_idem :
    (tier : Tier) (known : List Taint)
    → Knows common_known_ephemeral_taints (register_known_ephemeral_taints tier known)
      × (register_known_ephemeral_taints tier (register_known_ephemeral_taints tier known)
          ≡ register_known_ephemeral_taints tier known)
unfolding register_known_ephemeral_taints
register_known_ephemeral_taints_idem tier known =
    let common = register_taints-Knows common_known_ephemeral_taints known in
    let both =
      Knows-register_taints common_known_ephemeral_taints enterprise_known_ephemeral_taints _
        common in
    let fixed = register_taints-known common_known_ephemeral_taints in
    elim (Bool-cases (is_enterprise tier)) [
      | inr plain ↦ rw plain (common, fixed _ common)
      | inl rich ↦ rw rich (
        both,
        ap (register_taints enterprise_known_ephemeral_taints) (fixed _ both)
            ∙ register_taints-known enterprise_known_ephemeral_taints _
                (register_taints-Knows enterprise_known_ephemeral_taints _),
      )
    ]
