-- ===== src/Tests/Maxima.antt =====
-- A MaxResources that meets what is relied on of it.
use karpenter_provider_linod.Base.{
  ◌≡◌, refl, sym, ap, ◌∙◌, subst, inl, inr, true, Option, none, some, [], ◌∷◌, arith, Bool-cases,
  Text, text_eq, text_eq_iff, lookup, insert, nodup_keys, lookup-insert, insert-nodup_keys,
}
use karpenter_provider_linod.InstanceTypes.Types.{Quantity, ResourceList}
use karpenter_provider_linod.InstanceTypes.Signals.{larger, quantity_gt}

insert_some : Text → Option Quantity → ResourceList → ResourceList
insert_some k none m = m
insert_some k (some q) m = insert k q m

-- the first entry of each key, and the larger quantities
firsts : ResourceList → ResourceList
firsts [] = []
firsts ((k, v) ∷ m) = insert k v (firsts m)

pub maxima : ResourceList → ResourceList → ResourceList
maxima a [] = firsts a
maxima a ((k, v) ∷ b) = insert_some k (larger (lookup k a) (some v)) (maxima a b)

lookup-firsts : (k : Text) (m : ResourceList) → lookup k (firsts m) ≡ lookup k m
unfolding firsts lookup
lookup-firsts k [] = refl
lookup-firsts k ((j, v) ∷ m) = ground (arith, lookup-insert k j v (firsts m), lookup-firsts k m)

firsts-nodup_keys : (m : ResourceList) → nodup_keys (firsts m) ≡ true
unfolding firsts nodup_keys
firsts-nodup_keys [] = refl
firsts-nodup_keys ((j, v) ∷ m) = insert-nodup_keys j v (firsts m) (firsts-nodup_keys m)

insert_some-nodup_keys :
    (k : Text) (o : Option Quantity) (m : ResourceList)
    → nodup_keys m ≡ true
    → nodup_keys (insert_some k o m) ≡ true
unfolding insert_some
insert_some-nodup_keys k none m h = h
insert_some-nodup_keys k (some q) m h = insert-nodup_keys k q m h

pub maxima-nodup_keys : (a b : ResourceList) → nodup_keys (maxima a b) ≡ true
unfolding maxima
maxima-nodup_keys a [] = firsts-nodup_keys a
maxima-nodup_keys a ((k, v) ∷ b) =
    insert_some-nodup_keys k (larger (lookup k a) (some v)) (maxima a b) (maxima-nodup_keys a b)

larger-some : (o : Option Quantity) (v : Quantity) → (q : Quantity) × (larger o (some v) ≡ some q)
larger-some none v = (v, refl)
larger-some (some u) v = elim (Bool-cases (quantity_gt v u)) [
  | inl above ↦ (v, rw above refl)
  | inr below ↦ (u, rw below refl)
]

pub lookup-maxima :
    (k : Text) (a b : ResourceList) → lookup k (maxima a b) ≡ larger (lookup k a) (lookup k b)
unfolding maxima lookup insert_some
lookup-maxima k a [] = lookup-firsts k a
lookup-maxima k a ((j, v) ∷ b) =
    let (q, found) = larger-some (lookup j a) v in
    ap (λ o. lookup k (insert_some j o (maxima a b))) found
    ∙ lookup-insert k j q (maxima a b)
    ∙ elim (Bool-cases (text_eq j k)) [
      | inl same ↦ rw same (
          subst (λ i. some q ≡ larger (lookup i a) (some v)) ((text_eq_iff j k).0 same) (sym found))
      | inr differs ↦ rw differs (lookup-maxima k a b)
    ]
