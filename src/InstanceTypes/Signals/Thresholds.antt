-- ===== src/InstanceTypes/Signals/Thresholds.antt =====
-- The eviction thresholds: evictionThreshold of pkg/providers/instancetype/types.go.
use karpenter_provider_linod.Base.{
  ◌≡◌, refl, ap, ◌∙◌, Bool, true, false, Option, none, some, List, [], ◌∷◌, ◌++◌, if◌then◌else◌,
  Text, text_eq, Dict, lookup, assign, or_else, nodup_keys, lookup-assign, pos,
}
use karpenter_provider_linod.InstanceTypes.Types.{Quantity, ResourceList}
use karpenter_provider_linod.InstanceTypes.Gpus.{mebibytes}
use karpenter_provider_linod.InstanceTypes.Signals.{
  resource_memory, resource_ephemeral_storage, memory_available, signals_of, none_set, larger,
  signal_at, storage_eviction_signal, signal_overrides, override_signals, default_storage_threshold,
  eviction_threshold, Numbers,
}
use karpenter_provider_linod.InstanceTypes.Resolve.{memory}
use karpenter_provider_linod.InstanceTypes.Signals.Entries.{lookup-entries, or_else-none}

-- What MaxResources is relied on for: it takes the larger quantity of each resource, in a map.
pub record MaxLaws (n : Numbers) : Type 0 where
  pub lookup-max :
      (k : Text) (a b : ResourceList)
      → lookup k (n.max_resources a b) ≡ larger (lookup k a) (lookup k b)
  pub max-nodup_keys : (a b : ResourceList) → nodup_keys (n.max_resources a b) ≡ true

larger-none : (o : Option Quantity) → larger none o ≡ o
larger-none none = refl
larger-none (some v) = refl

module _ (n : Numbers) where
  -- what a signal map says of the memory and of the storage
  abbrev pub memory_signal : Quantity → Option (Dict Text) → Option Quantity
  memory_signal memory none = none
  memory_signal memory (some m) = signal_at n memory (lookup memory_available m)

  abbrev pub storage_signal : Quantity → Option (Dict Text) → Option Quantity
  storage_signal storage none = none
  storage_signal storage (some m) = storage_eviction_signal n storage m

  -- the default threshold, where no hard threshold is set
  abbrev pub storage_default : Quantity → Option (Dict Text) → Option Quantity
  storage_default storage hard =
      if none_set hard then some (default_storage_threshold n storage) else none

  lookup-signal_overrides :
      (memory storage : Quantity) (m : Dict Text)
      → (lookup resource_memory (signal_overrides n memory storage m)
          ≡ signal_at n memory (lookup memory_available m))
        × (lookup resource_ephemeral_storage (signal_overrides n memory storage m)
            ≡ storage_eviction_signal n storage m)
  unfolding signal_overrides
  lookup-signal_overrides mem storage m =
      let (of_memory, of_storage, _) =
        lookup-entries (signal_at n mem (lookup memory_available m))
          (storage_eviction_signal n storage m) in
      (of_memory, of_storage)

  -- the keys of the overrides differ
  override_signals-nodup_keys :
      (laws : MaxLaws n) (mem storage : Quantity) (override : ResourceList) (ms : List (Dict Text))
      → nodup_keys override ≡ true
      → nodup_keys (override_signals n mem storage override ms) ≡ true
  unfolding override_signals
  override_signals-nodup_keys laws mem storage override [] h = h
  override_signals-nodup_keys laws mem storage override (m ∷ ms) h =
      override_signals-nodup_keys laws mem storage
        (n.max_resources override (signal_overrides n mem storage m)) ms
        (laws.max-nodup_keys override (signal_overrides n mem storage m))

  -- one step of the loop
  lookup-max_memory :
      (laws : MaxLaws n) (mem storage : Quantity) (o : ResourceList) (m : Dict Text)
      → lookup resource_memory (n.max_resources o (signal_overrides n mem storage m))
        ≡ larger (lookup resource_memory o) (signal_at n mem (lookup memory_available m))
  lookup-max_memory laws mem storage o m =
      laws.lookup-max resource_memory o (signal_overrides n mem storage m)
      ∙ rw ((lookup-signal_overrides mem storage m).0) refl

  lookup-max_storage :
      (laws : MaxLaws n) (mem storage : Quantity) (o : ResourceList) (m : Dict Text)
      → lookup resource_ephemeral_storage (n.max_resources o (signal_overrides n mem storage m))
        ≡ larger (lookup resource_ephemeral_storage o) (storage_eviction_signal n storage m)
  lookup-max_storage laws mem storage o m =
      laws.lookup-max resource_ephemeral_storage o (signal_overrides n mem storage m)
      ∙ rw ((lookup-signal_overrides mem storage m).1) refl

  lookup-override_signals :
      (laws : MaxLaws n) (mem storage : Quantity) (hard soft : Option (Dict Text))
      → (lookup resource_memory
            (override_signals n mem storage [] (signals_of hard ++ signals_of soft))
          ≡ larger (memory_signal mem hard) (memory_signal mem soft))
        × (lookup resource_ephemeral_storage
              (override_signals n mem storage [] (signals_of hard ++ signals_of soft))
            ≡ larger (storage_signal storage hard) (storage_signal storage soft))
  unfolding override_signals lookup
  lookup-override_signals laws mem storage none none = (refl, refl)
  lookup-override_signals laws mem storage none (some m) =
      (lookup-max_memory laws mem storage [] m, lookup-max_storage laws mem storage [] m)
  lookup-override_signals laws mem storage (some m) none = (
    lookup-max_memory laws mem storage [] m ∙ larger-none _,
    lookup-max_storage laws mem storage [] m ∙ larger-none _,
  )
  lookup-override_signals laws mem storage (some m) (some s) = (
    lookup-max_memory laws mem storage _ s
        ∙ rw (lookup-max_memory laws mem storage [] m, larger-none) refl,
    lookup-max_storage laws mem storage _ s
        ∙ rw (lookup-max_storage laws mem storage [] m, larger-none) refl,
  )

  -- the last step, on the overrides and on whether the default counts
  lookup-assign_threshold :
      (override : ResourceList)
      → nodup_keys override ≡ true
      → (lookup resource_memory (assign ((resource_memory, pos (mebibytes 100)) ∷ []) override)
          ≡ or_else (lookup resource_memory override) (some (pos (mebibytes 100))))
        × (lookup resource_ephemeral_storage
              (assign ((resource_memory, pos (mebibytes 100)) ∷ []) override)
            ≡ lookup resource_ephemeral_storage override)
  unfolding lookup text_eq
  lookup-assign_threshold override h = (
    lookup-assign resource_memory _ override h,
    lookup-assign resource_ephemeral_storage _ override h ∙ or_else-none _,
  )

  with_default :
      (laws : MaxLaws n) (override : ResourceList) (threshold : Quantity)
      → (lookup resource_memory
            (n.max_resources override ((resource_ephemeral_storage, threshold) ∷ []))
          ≡ lookup resource_memory override)
        × (lookup resource_ephemeral_storage
              (n.max_resources override ((resource_ephemeral_storage, threshold) ∷ []))
            ≡ larger (lookup resource_ephemeral_storage override) (some threshold))
  unfolding lookup text_eq
  with_default laws override threshold = (
    laws.lookup-max resource_memory override _,
    laws.lookup-max resource_ephemeral_storage override _,
  )

  -- the same with the default where no hard threshold is set
  lookup-with_default :
      (laws : MaxLaws n) (override : ResourceList) (threshold : Quantity) (unset : Bool)
      → nodup_keys override ≡ true
      → (lookup resource_memory (
            assign ((resource_memory, pos (mebibytes 100)) ∷ []) (
              if unset
              then n.max_resources override ((resource_ephemeral_storage, threshold) ∷ [])
              else override))
          ≡ or_else (lookup resource_memory override) (some (pos (mebibytes 100))))
        × (lookup resource_ephemeral_storage (
              assign ((resource_memory, pos (mebibytes 100)) ∷ []) (
                if unset
                then n.max_resources override ((resource_ephemeral_storage, threshold) ∷ [])
                else override))
            ≡ larger
                (lookup resource_ephemeral_storage override)
                (if unset then some threshold else none))
  lookup-with_default laws override threshold true h =
      let (mem, storage) = lookup-assign_threshold _ (laws.max-nodup_keys override _) in
      let (mem_max, storage_max) = with_default laws override threshold in
      (mem ∙ ap (λ o. or_else o (some (pos (mebibytes 100)))) mem_max, storage ∙ storage_max)
  lookup-with_default laws override threshold false h = lookup-assign_threshold override h

  -- Given what MaxResources is relied on for, the memory threshold is the larger of those that the hard
  -- and the soft signals ask for, or 100 Mi if none does; the storage threshold is the largest of those
  -- that they ask for and of the default, which counts only when no hard threshold is set.
  pub lookup-eviction_threshold :
      (laws : MaxLaws n) (mem storage : Quantity) (hard soft : Option (Dict Text))
      → (lookup resource_memory (eviction_threshold n mem storage hard soft)
          ≡ or_else
              (larger (memory_signal mem hard) (memory_signal mem soft))
              (some (pos (mebibytes 100))))
        × (lookup resource_ephemeral_storage (eviction_threshold n mem storage hard soft)
            ≡ larger
                (larger (storage_signal storage hard) (storage_signal storage soft))
                (storage_default storage hard))
  unfolding eviction_threshold nodup_keys
  lookup-eviction_threshold laws mem storage hard soft =
      let signals = signals_of hard ++ signals_of soft in
      let (of_memory, of_storage) = lookup-override_signals laws mem storage hard soft in
      let (in_memory, in_storage) =
        lookup-with_default laws (override_signals n mem storage [] signals)
          (default_storage_threshold n storage) (none_set hard)
          (override_signals-nodup_keys laws mem storage [] signals refl) in
      (
        in_memory ∙ ap (λ o. or_else o (some (pos (mebibytes 100)))) of_memory,
        in_storage ∙ ap (λ o. larger o (storage_default storage hard)) of_storage,
      )
