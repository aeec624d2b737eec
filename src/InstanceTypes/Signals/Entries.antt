-- ===== src/InstanceTypes/Signals/Entries.antt =====
-- Lists of an optional memory quantity and an optional storage quantity.
use karpenter_provider_linod.Base.{
  ◌≡◌, refl, true, Option, none, some, ◌++◌, text_eq, lookup, or_else, nodup_keys,
}
use karpenter_provider_linod.InstanceTypes.Types.{Quantity}
use karpenter_provider_linod.InstanceTypes.Signals.{
  resource_memory, resource_ephemeral_storage, entry_if,
}

pub lookup-entries :
    (o p : Option Quantity)
    → (lookup resource_memory (entry_if resource_memory o ++ entry_if resource_ephemeral_storage p)
        ≡ o)
      × (lookup resource_ephemeral_storage
            (entry_if resource_memory o ++ entry_if resource_ephemeral_storage p)
          ≡ p)
      × (nodup_keys (entry_if resource_memory o ++ entry_if resource_ephemeral_storage p) ≡ true)
unfolding lookup nodup_keys text_eq
lookup-entries none none = (refl, refl, refl)
lookup-entries none (some v) = (refl, refl, refl)
lookup-entries (some u) none = (refl, refl, refl)
lookup-entries (some u) (some v) = (refl, refl, refl)

pub or_else-none {ℓ} : {A : Type ℓ} (o : Option A) → or_else o none ≡ o
or_else-none none = refl
or_else-none (some v) = refl
