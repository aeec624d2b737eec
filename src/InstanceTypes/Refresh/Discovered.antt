-- ===== src/InstanceTypes/Refresh/Discovered.antt =====
-- What one node does to the discovered capacity of its instance type.
use karpenter_provider_linod.Base.{
  ◌≡◌, refl, true, false, Option, none, some, [], ◌∷◌, arith, if◌then◌else◌, Text, text_eq,
  text_eq_iff, lookup, insert, or_else, nodup_keys, lookup-insert, sym, ap, insert-nodup_keys, ◌∙◌,
  inl, inr, Bool-cases, Bool,
}
use karpenter_provider_linod.InstanceTypes.Types.{Quantity, ResourceList}
use karpenter_provider_linod.InstanceTypes.Signals.{
  quantity_gt, resource_memory, resource_ephemeral_storage,
}
use karpenter_provider_linod.InstanceTypes.Refresh.{
  observe_quantity, observe_all, copy_resource_list, copied_or_empty, Observed, actual_capacity,
}
use karpenter_provider_linod.InstanceTypes.Signals.Entries.{lookup-entries, or_else-none}

-- the smaller of two quantities
abbrev pub smaller : Option Quantity → Option Quantity → Option Quantity
smaller none o = o
smaller (some a) none = some a
smaller (some a) (some b) = if quantity_gt b a then some a else some b

abbrev pub lookup_in : Text → Option ResourceList → Option Quantity
lookup_in k none = none
lookup_in k (some m) = lookup k m

lookup-copy_resource_list :
    (k : Text) (m copied : ResourceList)
    → nodup_keys m ≡ true
    → lookup k (copy_resource_list m copied) ≡ or_else (lookup k m) (lookup k copied)
unfolding copy_resource_list lookup nodup_keys
lookup-copy_resource_list k [] copied h = refl
lookup-copy_resource_list k ((j, v) ∷ m) copied h = ground (
  arith,
  text_eq_iff j k,
  lookup-copy_resource_list k m (insert j v copied),
  lookup-insert k j v copied,
)

copy_resource_list-nodup_keys :
    (m copied : ResourceList)
    → nodup_keys copied ≡ true
    → nodup_keys (copy_resource_list m copied) ≡ true
unfolding copy_resource_list
copy_resource_list-nodup_keys [] copied h = h
copy_resource_list-nodup_keys ((j, v) ∷ m) copied h =
    copy_resource_list-nodup_keys m (insert j v copied) (insert-nodup_keys j v copied h)

-- one quantity, on what is cached of it
observe_one :
    (k j : Text) (q : Quantity) (o : Observed) (before : Option Quantity)
    → lookup j o.cached ≡ before
    → lookup k (observe_quantity j q before o).cached
      ≡ (if text_eq j k then smaller before (some q) else lookup k o.cached)
unfolding observe_quantity
observe_one k j q o none h = lookup-insert k j q o.cached
observe_one k j q o (some v) h =
    ground (arith, text_eq_iff j k, lookup-insert k j q o.cached, ap (λ i. lookup i o.cached))

observe_quantity-nodup_keys :
    (j : Text) (q : Quantity) (before : Option Quantity) (o : Observed)
    → nodup_keys o.cached ≡ true
    → nodup_keys (observe_quantity j q before o).cached ≡ true
unfolding observe_quantity
observe_quantity-nodup_keys j q none o h = insert-nodup_keys j q o.cached h
observe_quantity-nodup_keys j q (some v) o h = ground (arith, insert-nodup_keys j q o.cached)

pub observe_all-nodup_keys :
    (actual : ResourceList) (o : Observed)
    → nodup_keys o.cached ≡ true
    → nodup_keys (observe_all actual o).cached ≡ true
unfolding observe_all
observe_all-nodup_keys [] o h = h
observe_all-nodup_keys ((j, q) ∷ actual) o h =
    observe_all-nodup_keys actual (observe_quantity j q (lookup j o.cached) o)
      (observe_quantity-nodup_keys j q (lookup j o.cached) o h)

pub smaller-none : (o : Option Quantity) → smaller o none ≡ o
smaller-none none = refl
smaller-none (some a) = refl

pub lookup-observe_all :
    (k : Text) (actual : ResourceList) (o : Observed)
    → nodup_keys actual ≡ true
    → lookup k (observe_all actual o).cached ≡ smaller (lookup k o.cached) (lookup k actual)
unfolding observe_all lookup nodup_keys
lookup-observe_all k [] o h = sym (smaller-none (lookup k o.cached))
lookup-observe_all k ((j, q) ∷ actual) o h = ground (
  arith,
  text_eq_iff j k,
  smaller-none (lookup k o.cached),
  smaller-none (smaller (lookup k o.cached) (some q)),
  lookup-observe_all k actual (observe_quantity j q (lookup j o.cached) o),
  observe_one k j q o (lookup j o.cached) refl,
  ap (λ i. lookup i o.cached),
)

observe_quantity-kept :
    (j : Text) (q : Quantity) (before : Option Quantity) (o : Observed)
    → (observe_quantity j q before o).refresh ≡ false
    → (o.refresh ≡ false) × ((observe_quantity j q before o).cached ≡ o.cached)
unfolding observe_quantity
observe_quantity-kept j q none o h = absurd (ground arith)
observe_quantity-kept j q (some v) o h = elim (Bool-cases (quantity_gt q v)) [
  | inl above ↦ rw above (rw above at h, refl)
  | inr below ↦ absurd (ground (arith, rw below at h))
]

-- Nothing to store means that nothing changed.
pub observe_all-kept :
    (actual : ResourceList) (o : Observed)
    → (observe_all actual o).refresh ≡ false
    → (o.refresh ≡ false) × ((observe_all actual o).cached ≡ o.cached)
unfolding observe_all
observe_all-kept [] o h = (h, refl)
observe_all-kept ((j, q) ∷ actual) o h =
    let (kept, same) = observe_all-kept actual (observe_quantity j q (lookup j o.cached) o) h in
    let (first, same_first) = observe_quantity-kept j q (lookup j o.cached) o kept in
    (first, same ∙ same_first)

abbrev pub nodup_in : Option ResourceList → Bool
nodup_in none = true
nodup_in (some m) = nodup_keys m

pub lookup-copied :
    (k : Text) (cached : Option ResourceList)
    → nodup_in cached ≡ true
    → lookup k (copied_or_empty cached) ≡ lookup_in k cached
unfolding lookup
lookup-copied k none h = refl
lookup-copied k (some m) h = lookup-copy_resource_list k m [] h ∙ or_else-none (lookup k m)

pub lookup-actual_capacity :
    (capacity : ResourceList)
    → (lookup resource_memory (actual_capacity capacity) ≡ lookup resource_memory capacity)
      × (lookup resource_ephemeral_storage (actual_capacity capacity)
          ≡ lookup resource_ephemeral_storage capacity)
      × (nodup_keys (actual_capacity capacity) ≡ true)
unfolding actual_capacity
lookup-actual_capacity capacity =
    lookup-entries (lookup resource_memory capacity) (lookup resource_ephemeral_storage capacity)

pub copied_or_empty-nodup_keys :
    (cached : Option ResourceList) → nodup_keys (copied_or_empty cached) ≡ true
unfolding nodup_keys
copied_or_empty-nodup_keys none = refl
copied_or_empty-nodup_keys (some m) = copy_resource_list-nodup_keys m [] refl

pub lookup-empty : (k : Text) → lookup {V = Quantity} k [] ≡ none
unfolding lookup
lookup-empty k = refl
