-- ===== src/Tests/Plans.antt =====
-- Instance types of two plans, and the nodes that register with them.
use karpenter_provider_linod.Tests.Maxima.{maxima, maxima-nodup_keys, lookup-maxima}
use karpenter_provider_linod.Errors.{wrap}
use karpenter_provider_linod.Tests.World.{missing}
use karpenter_provider_linod.Offerings.{unavailable_offerings_ttl}
use karpenter_provider_linod.Base.{
  ◌≡◌, refl, true, none, some, [], ◌∷◌, arith, Text, text_eq, lookup, nodup_keys, ℕ, ◌+◌, ◌-◌, ◌*◌,
  ◌/◌, ◌≤◌, ◌||◌, List, ◌==◌, length, codes, contains, Dict, or_else, pos,
}
use karpenter_provider_linod.InstanceTypes.Types.{
  ResourceList, Offering, InstanceType, LinodeType, ClassSettings,
}
use karpenter_provider_linod.InstanceTypes.Signals.{
  resource_cpu, resource_memory, resource_ephemeral_storage, larger, eviction_threshold, Numbers,
}
use karpenter_provider_linod.Lke.State.{ok, err}
use karpenter_provider_linod.Objects.{at, RegionAvailability}
use karpenter_provider_linod.Cache.Sample.{Sample, sample_cache, sample_cache-CacheLaws}
use karpenter_provider_linod.InstanceTypes.Gpus.{mebibytes}
use karpenter_provider_linod.InstanceTypes.Signals.Thresholds.{
  memory_signal, storage_signal, storage_default, lookup-eviction_threshold, MaxLaws,
}
use karpenter_provider_linod.InstanceTypes.Resolve.{
  cpu_ranges, cpu_overhead, default_reserved, kube_reserved_resources, resolve_type,
  new_instance_type,
}
use karpenter_provider_linod.InstanceTypes.Resolve.Reserved.{parsed, lookup-kube_reserved_resources}
use karpenter_provider_linod.InstanceTypes.Store.{
  discovered_capacity_cache_key, get_type, Setup, TypeProvider,
}
use karpenter_provider_linod.InstanceTypes.Refresh.{
  label_instance_type, regions_or_none, update_instance_type_offerings, Node,
}
use karpenter_provider_linod.InstanceTypes.Refresh.Discovered.{lookup_in}
use karpenter_provider_linod.InstanceTypes.Refresh.Availability.{
  reports, reports_any, update_instance_type_offerings_lem,
}
use karpenter_provider_linod.InstanceTypes.Refresh.Window.{discovered_capacity_cache_ttl}
use karpenter_provider_linod.InstanceTypes.Refresh.Observations.{
  smallest, observe_nodes, capacity_of, get_type-observed,
}

-- numbers of which only the quantities matter
abbrev numbers : Numbers
numbers = record {
  Float = ℕ;
  parse = λ s. pos (length s);
  parse_float = λ s. length s;
  is_hundred = λ f. f == 100;
  zero_percent = 0;
  share = λ capacity f. capacity;
  overhead_mib = λ bytes. bytes / 13421773;
  max_resources = maxima;
}

maxima-MaxLaws : MaxLaws numbers
maxima-MaxLaws = record { lookup-max = lookup-maxima; max-nodup_keys = maxima-nodup_keys }

abbrev soft : Dict Text
soft = (codes "memory.available", codes "5%") ∷ (codes "nodefs.available", codes "3Gi") ∷ []

lookup-eviction_threshold_example :
    (lookup resource_memory (eviction_threshold numbers (pos 4000) (pos 80000) none (some soft))
      ≡ or_else
          (larger
            (memory_signal numbers (pos 4000) none)
            (memory_signal numbers (pos 4000) (some soft)))
          (some (pos (mebibytes 100))))
    × (lookup resource_ephemeral_storage
          (eviction_threshold numbers (pos 4000) (pos 80000) none (some soft))
        ≡ larger
            (larger
              (storage_signal numbers (pos 80000) none)
              (storage_signal numbers (pos 80000) (some soft)))
            (storage_default numbers (pos 80000) none))
lookup-eviction_threshold_example =
    lookup-eviction_threshold numbers maxima-MaxLaws (pos 4000) (pos 80000) none (some soft)

abbrev reserved : Dict Text
reserved = (resource_cpu, codes "250m") ∷ []

reserved_apart : nodup_keys reserved ≡ true
unfolding nodup_keys lookup
reserved_apart = refl

lookup-kube_reserved_resources_example :
    (lookup resource_cpu (kube_reserved_resources numbers 8000 110 reserved)
      ≡ or_else
          (parsed numbers (lookup resource_cpu reserved))
          (lookup resource_cpu (default_reserved 8000 110)))
    × (lookup resource_memory (default_reserved 8000 110) ≡ some (pos (mebibytes (11 * 110 + 255))))
    × (lookup resource_cpu (default_reserved 8000 110) ≡ some (pos (cpu_overhead 8000 cpu_ranges)))
    × (100 * cpu_overhead 8000 cpu_ranges ≤ 6 * 8000)
    × (cpu_overhead 8000 cpu_ranges ≤ cpu_overhead 16000 cpu_ranges)
    × (cpu_overhead (8 * 1000) cpu_ranges ≡ 80 + (8 - 4) * 5 / 2)
lookup-kube_reserved_resources_example =
    lookup-kube_reserved_resources numbers 8000 16000 110 8 reserved resource_cpu reserved_apart
      (omega arith) (omega arith) (omega arith)

abbrev plan : LinodeType
plan = record {
  id = codes "g6-standard-2";
  hourly = some 36;
  vcpus = 2;
  memory = 4096;
  disk = 81920;
  transfer = 4000;
  network_out = 4000;
  class = codes "standard";
  gpus = pos 0;
  accelerated_devices = 0;
}

abbrev settings : ClassSettings
settings = record { name = codes "default"; kubelet = none; images = [] }

abbrev setup : Setup
setup = record {
  TypesCache = Sample (List InstanceType);
  CapacityCache = Sample ResourceList;
  OfferingCache = Sample (List Offering);
  MarkCache = Sample (Unit {0});
  types_ops = sample_cache (List InstanceType) 300000000000;
  capacity_ops = sample_cache ResourceList discovered_capacity_cache_ttl;
  offering_ops = sample_cache (List Offering) 300000000000;
  mark_ops = sample_cache (Unit {0}) unavailable_offerings_ttl;
  Monitor = ℕ;
  types_changed = λ now types m. (true, m + 1);
  offered_changed = λ now offered m. (true, m + 1);
  regions_changed = λ now regions m. (true, m + 1);
  resolve = λ info node_class. some (resolve_type numbers (codes "us-ord") info node_class);
  resolver_key = λ node_class. node_class.name;
  regions_hash = λ regions. [];
  images_hash = λ images. [];
}

abbrev fresh : TypeProvider setup
fresh = record {
  types_info = (codes "g6-standard-2", plan) ∷ [];
  offered = [];
  regions = [];
  types_cache = [];
  capacity_cache = [];
  monitor = 0;
  offering_provider = record { cache = []; last_seq_num = [] };
}

abbrev worker : ℕ → Node
worker bytes = record {
  labels = (label_instance_type, codes "g6-standard-2") ∷ [];
  capacity = (resource_memory, pos bytes) ∷ [];
}

abbrev workers : List (ℕ × Node)
workers = (10, worker 4000) ∷ (20, worker 3900) ∷ (30, worker 4100) ∷ []

nothing_cached :
    (t : ℕ)
    → setup.capacity_ops.get fresh.capacity_cache t
        (discovered_capacity_cache_key setup (codes "g6-standard-2") settings)
      ≡ none
unfolding lookup
nothing_cached t = refl

plan_found : lookup (codes "g6-standard-2") fresh.types_info ≡ some plan
unfolding lookup text_eq
plan_found = refl

labelled : text_eq (at (worker 0).labels label_instance_type) (codes "g6-standard-2") ≡ true
unfolding at lookup text_eq
labelled = refl

is_memory :
    (text_eq resource_memory resource_memory || text_eq resource_memory resource_ephemeral_storage)
    ≡ true
unfolding text_eq
is_memory = refl

named_plan : (resolve_type numbers (codes "us-ord") plan settings).name ≡ codes "g6-standard-2"
unfolding resolve_type new_instance_type
named_plan = refl

get_type-observed_example :
    (lookup_in resource_memory (
        setup.capacity_ops.get
          (observe_nodes setup settings workers fresh).capacity_cache
          40
          (discovered_capacity_cache_key setup (codes "g6-standard-2") settings))
      ≡ smallest resource_memory none workers)
    × (capacity_of setup resource_memory (
          get_type setup
            (observe_nodes setup settings workers fresh)
            40
            settings
            (codes "g6-standard-2"))
        ≡ or_else
            (smallest resource_memory none workers)
            (lookup resource_memory (resolve_type numbers (codes "us-ord") plan settings).capacity))
get_type-observed_example =
    get_type-observed setup (sample_cache-CacheLaws ResourceList discovered_capacity_cache_ttl)
      settings (codes "g6-standard-2") resource_memory 10 40 workers fresh plan
      (resolve_type numbers (codes "us-ord") plan settings) is_memory (omega arith) nothing_cached
      (labelled, (labelled, (labelled, tt))) refl plan_found refl named_plan

abbrev availability : List RegionAvailability
availability =
    record { plan = codes "g6-standard-2"; region = codes "us-ord"; available = true } ∷ []

update_instance_type_offerings_lem_example :
    (contains (codes "us-ord") (
        regions_or_none (
          lookup
            (codes "g6-standard-2")
            (update_instance_type_offerings setup 10 (ok availability) fresh).1.offered))
      ≡ reports (codes "g6-standard-2") (codes "us-ord") availability)
    × (contains
          (codes "us-ord")
          (update_instance_type_offerings setup 10 (ok availability) fresh).1.regions
        ≡ reports_any (codes "us-ord") availability)
    × (update_instance_type_offerings setup 10 (err missing) fresh ≡ (some (wrap missing), fresh))
update_instance_type_offerings_lem_example =
    update_instance_type_offerings_lem setup 10 availability (codes "g6-standard-2")
      (codes "us-ord") missing fresh
