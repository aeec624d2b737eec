-- ===== src/Selection/Cheapest.antt =====
-- The instance type that Create takes.
use mathlib.Core.List.{Memᴰ}
use karpenter_provider_linod.Base.{
  ◌≡◌, refl, sym, subst, inl, inr, true, false, List, [], ◌∷◌, Bool-cases, some, arith,
  if◌then◌else◌,
}
use karpenter_provider_linod.Objects.{NodeClaim}
use karpenter_provider_linod.Selection.{
  keeps, filter_reject, cheapest_from, Catalog, some_remaining, cheapest_instance_type,
  filter_instance_types,
}

-- What the order of the prices is relied on for: `cheaper` is a strict weak order.
pub record PriceLaws (c : Catalog) : Type 0 where
  pub irreflexive : (i : c.InstanceType) → c.cheaper i i ≡ false
  -- of two types, one of which is not cheaper than a third, and so on
  pub negatively_transitive :
      (i j k : c.InstanceType)
      → c.cheaper i j ≡ false
      → c.cheaper j k ≡ false
      → c.cheaper i k ≡ false
  pub asymmetric : (i j : c.InstanceType) → c.cheaper i j ≡ true → c.cheaper j i ≡ false

member-skip : {A : Type 0} (a i x : A) (is : List A) → Memᴰ x (a ∷ is) → Memᴰ x (a ∷ i ∷ is)
member-skip a i x is (Memᴰ.head same) = Memᴰ.head same
member-skip a i x is (Memᴰ.tail there) = Memᴰ.tail (Memᴰ.tail there)

member-drop : {A : Type 0} (a x : A) (is : List A) → Memᴰ x (a ∷ a ∷ is) → Memᴰ x (a ∷ is)
member-drop a x is (Memᴰ.head same) = Memᴰ.head same
member-drop a x is (Memᴰ.tail there) = there

module _ (c : Catalog) where
  open c use {InstanceType}

  kept_head :
      (claim : NodeClaim) (i j : InstanceType) (is : List InstanceType)
      → keeps c claim j ≡ true
      → (Memᴰ i (filter_reject c claim is) → Memᴰ i is × (keeps c claim i ≡ true))
      → Memᴰ i (j ∷ filter_reject c claim is)
      → Memᴰ i (j ∷ is) × (keeps c claim i ≡ true)
  kept_head claim i j is kept ih (Memᴰ.head same) =
      (Memᴰ.head same, subst (λ a. keeps c claim a ≡ true) (sym same) kept)
  kept_head claim i j is kept ih (Memᴰ.tail there) = let (m, k) = ih there in (Memᴰ.tail m, k)

module _ (c : Catalog) (laws : PriceLaws c) where
  open c use {InstanceType}

  cheapest_from-first :
      (a : InstanceType) (is : List InstanceType) → c.cheaper a (cheapest_from c a is) ≡ false
  unfolding cheapest_from
  cheapest_from-first a [] = laws.irreflexive a
  cheapest_from-first a (i ∷ is) = elim (Bool-cases (c.cheaper i a)) [
    | inl below ↦
        rw below
          (laws.negatively_transitive a i _ (laws.asymmetric i a below) (cheapest_from-first i is))
    | inr above ↦ rw above (cheapest_from-first a is)
  ]

  cheapest_from-rest :
      (is : List InstanceType) (a j : InstanceType)
      → Memᴰ j is
      → c.cheaper j (cheapest_from c a is) ≡ false
  unfolding cheapest_from
  cheapest_from-rest [] a j there = elim there [ ]
  cheapest_from-rest (i ∷ is) a j (Memᴰ.head same) = elim (Bool-cases (c.cheaper i a)) [
    | inl below ↦ rw below (
        subst (λ k. c.cheaper k (cheapest_from c i is) ≡ false) (sym same)
          (cheapest_from-first i is))
    | inr above ↦ rw above (
        subst (λ k. c.cheaper k (cheapest_from c a is) ≡ false) (sym same)
          (laws.negatively_transitive i a _ above (cheapest_from-first a is)))
  ]
  cheapest_from-rest (i ∷ is) a j (Memᴰ.tail there) =
      cheapest_from-rest is (if c.cheaper i a then i else a) j there

  cheapest_from-member :
      (a : InstanceType) (is : List InstanceType) → Memᴰ (cheapest_from c a is) (a ∷ is)
  unfolding cheapest_from
  cheapest_from-member a [] = Memᴰ.head refl
  cheapest_from-member a (i ∷ is) = elim (Bool-cases (c.cheaper i a)) [
    | inl below ↦ rw below (Memᴰ.tail (cheapest_from-member i is))
    | inr above ↦ rw above (member-skip a i _ is (cheapest_from-member a is))
  ]

  filter_reject-keeps :
      (claim : NodeClaim) (is : List InstanceType) (i : InstanceType)
      → Memᴰ i (filter_reject c claim is)
      → Memᴰ i is × (keeps c claim i ≡ true)
  unfolding filter_reject
  filter_reject-keeps claim [] i h = elim h [ ]
  filter_reject-keeps claim (j ∷ is) i h = elim (Bool-cases (keeps c claim j)) [
    | inr rejected ↦
        let (m, k) = filter_reject-keeps claim is i (rw rejected at h) in (Memᴰ.tail m, k)
    | inl kept ↦ kept_head c claim i j is kept (filter_reject-keeps claim is i) (rw kept at h)
  ]

  filter_reject-all :
      (claim : NodeClaim) (is : List InstanceType) (i : InstanceType)
      → Memᴰ i is
      → keeps c claim i ≡ true
      → Memᴰ i (filter_reject c claim is)
  unfolding filter_reject
  filter_reject-all claim [] i there k = elim there [ ]
  filter_reject-all claim (j ∷ is) i (Memᴰ.head same) k =
      rw (subst (λ a. keeps c claim a ≡ true) same k) (Memᴰ.head same)
  filter_reject-all claim (j ∷ is) i (Memᴰ.tail there) k = elim (Bool-cases (keeps c claim j)) [
    | inl kept ↦ rw kept (Memᴰ.tail (filter_reject-all claim is i there k))
    | inr rejected ↦ rw rejected (filter_reject-all claim is i there k)
  ]

  some_remaining_inj : (l kept : List InstanceType) → some_remaining c l ≡ some kept → kept ≡ l
  some_remaining_inj [] kept h = absurd (ground arith)
  some_remaining_inj (i ∷ is) kept h = ground arith

  cheapest_of :
      (is : List InstanceType) (i : InstanceType)
      → cheapest_instance_type c is ≡ some i
      → Memᴰ i is × ((j : InstanceType) → Memᴰ j is → c.cheaper j i ≡ false)
  unfolding cheapest_instance_type
  cheapest_of [] i h = absurd (ground arith)
  cheapest_of (a ∷ is) i h =
      let same : cheapest_from c a (a ∷ is) ≡ i = ground arith in
      (
        subst (λ x. Memᴰ x (a ∷ is)) same (member-drop a _ is (cheapest_from-member a (a ∷ is))),
        λ j there. subst (λ x. c.cheaper j x ≡ false) same (cheapest_from-rest (a ∷ is) a j there),
      )

  -- If the prices are ordered, the instance type that CheapestInstanceType takes of the result of
  -- FilterInstanceTypes is one of those offered and passes the filter, and no type offered that
  -- passes it is cheaper.
  pub cheapest_instance_type_lem :
      (claim : NodeClaim) (is kept : List InstanceType) (i j : InstanceType)
      → filter_instance_types c claim is ≡ some kept
      → cheapest_instance_type c kept ≡ some i
      → Memᴰ j is
      → keeps c claim j ≡ true
      → Memᴰ i is × (keeps c claim i ≡ true) × (c.cheaper j i ≡ false)
  unfolding filter_instance_types
  cheapest_instance_type_lem claim is kept i j filtered chosen there k =
      let same = some_remaining_inj (filter_reject c claim is) kept filtered in
      let (member, least) = cheapest_of kept i chosen in
      let (listed, ok) = filter_reject-keeps claim is i (subst (λ l. Memᴰ i l) same member) in
      (
        listed,
        ok,
        least j (subst (λ l. Memᴰ j l) (sym same) (filter_reject-all claim is j there k)),
      )
