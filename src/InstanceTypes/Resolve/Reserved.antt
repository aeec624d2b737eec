-- ===== src/InstanceTypes/Resolve/Reserved.antt =====
-- What is set aside for the kubelet: kubeReservedResources.
use karpenter_provider_linod.Base.{
  ℕ, ◌+◌, ◌-◌, ◌*◌, ◌/◌, ◌≤◌, ◌<◌, ◌≡◌, arith, refl, ◌∙◌, true, Option, none, some, [], ◌∷◌, Text,
  text_eq, Dict, lookup, or_else, nodup_keys, lookup-assign, nodup, pos,
}
use karpenter_provider_linod.InstanceTypes.Resolve.{
  cpu_ranges, range_overhead, cpu_overhead, resource_cpu, resource_memory, default_reserved,
  parse_entries, kube_reserved_resources, Numbers,
}
use karpenter_provider_linod.InstanceTypes.Types.{Quantity}
use karpenter_provider_linod.InstanceTypes.Gpus.{mebibytes}

cpu_overhead-bound : (c : ℕ) → 100 * cpu_overhead c cpu_ranges ≤ 6 * c
unfolding cpu_overhead range_overhead
cpu_overhead-bound c = ground arith

cpu_overhead-monotone : (c d : ℕ) → c ≤ d → cpu_overhead c cpu_ranges ≤ cpu_overhead d cpu_ranges
unfolding cpu_overhead range_overhead
cpu_overhead-monotone c d le = ground arith

cpu_overhead-large :
    (v : ℕ)
    → 4 ≤ v
    → v * 1000 < 2147483648
    → cpu_overhead (v * 1000) cpu_ranges ≡ 80 + (v - 4) * 5 / 2
unfolding cpu_overhead range_overhead
cpu_overhead-large v le lt = ground arith

module _ (n : Numbers) where
  -- the quantity of an entry
  abbrev pub parsed : Option Text → Option Quantity
  parsed none = none
  parsed (some v) = some (n.parse v)

  lookup-parse_entries :
      (k : Text) (m : Dict Text) → lookup k (parse_entries n m) ≡ parsed (lookup k m)
  unfolding lookup parse_entries
  lookup-parse_entries k [] = refl
  lookup-parse_entries k ((j, v) ∷ m) = ground (arith, lookup-parse_entries k m)

  parse_entries-nodup_keys :
      (m : Dict Text) → nodup_keys m ≡ true → nodup_keys (parse_entries n m) ≡ true
  unfolding nodup_keys parse_entries
  parse_entries-nodup_keys [] h = refl
  parse_entries-nodup_keys ((k, v) ∷ m) h =
      ground (arith, lookup-parse_entries k m, parse_entries-nodup_keys m)

  -- What the node class sets aside wins, resource by resource; otherwise the memory is 255 Mi and 11 Mi
  -- for each pod, and the CPU is at most six hundredths of what there is, never falls when there is more
  -- of it, and from four CPUs on is 80 thousandths and two and a half for each further one.
  pub lookup-kube_reserved_resources :
      (milli more pod_count v : ℕ) (kube_reserved : Dict Text) (k : Text)
      → nodup_keys kube_reserved ≡ true
      → milli ≤ more
      → 4 ≤ v
      → v * 1000 < 2147483648
      → (lookup k (kube_reserved_resources n milli pod_count kube_reserved)
          ≡ or_else (parsed (lookup k kube_reserved)) (lookup k (default_reserved milli pod_count)))
        × (lookup resource_memory (default_reserved milli pod_count)
            ≡ some (pos (mebibytes (11 * pod_count + 255))))
        × (lookup resource_cpu (default_reserved milli pod_count)
            ≡ some (pos (cpu_overhead milli cpu_ranges)))
        × (100 * cpu_overhead milli cpu_ranges ≤ 6 * milli)
        × (cpu_overhead milli cpu_ranges ≤ cpu_overhead more cpu_ranges)
        × (cpu_overhead (v * 1000) cpu_ranges ≡ 80 + (v - 4) * 5 / 2)
  unfolding kube_reserved_resources default_reserved lookup text_eq
  lookup-kube_reserved_resources milli more pod_count v kube_reserved k nodup le four lt = (
    lookup-assign k (default_reserved milli pod_count) (parse_entries n kube_reserved)
          (parse_entries-nodup_keys kube_reserved nodup)
        ∙ rw (lookup-parse_entries k kube_reserved) refl,
    refl,
    refl,
    cpu_overhead-bound milli,
    cpu_overhead-monotone milli more le,
    cpu_overhead-large v four lt,
  )
