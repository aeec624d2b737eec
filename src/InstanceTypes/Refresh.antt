-- ===== src/InstanceTypes/Refresh.antt =====
-- The updates of the instance type provider of pkg/providers/instancetype/instancetype.go.
pub mod Discovered
pub mod Window
pub mod Observations
pub mod Availability
use karpenter_provider_linod.Base.{
  ℕ, Bool, true, false, ◌||◌, Option, none, some, List, [], ◌∷◌, ◌++◌, if◌then◌else◌, Text, codes,
  contains, Dict, lookup, insert,
}
use karpenter_provider_linod.Errors.{Err, wrap}
use karpenter_provider_linod.Objects.{at, RegionAvailability}
use karpenter_provider_linod.Lke.State.{Result, ok, err}
use karpenter_provider_linod.InstanceTypes.Types.{Quantity, ResourceList, LinodeType, ClassSettings}
use karpenter_provider_linod.InstanceTypes.Offers.{invalidate_cache}
use karpenter_provider_linod.InstanceTypes.Signals.{
  resource_memory, resource_ephemeral_storage, quantity_gt, entry_if,
}
use karpenter_provider_linod.InstanceTypes.Store.{
  types_cache_key, discovered_capacity_cache_key, Setup, TypeProvider,
}

-- corev1.Node
pub record Node : Type 0 where
  pub labels : Dict Text
  pub capacity : ResourceList

-- corev1.LabelInstanceTypeStable
abbrev pub label_instance_type : Text
label_instance_type = codes "node.kubernetes.io/instance-type"

-- lo.SliceToMap by the identifier
unfoldable pub types_by_id : List LinodeType → Dict LinodeType → Dict LinodeType
types_by_id [] m = m
types_by_id (t ∷ ts) m = types_by_id ts (insert t.id t m)

abbrev pub regions_or_none : Option (List Text) → List Text
regions_or_none none = []
regions_or_none (some regions) = regions

-- sets.Set.Insert
abbrev insert_region : Text → List Text → List Text
insert_region region regions = if contains region regions then regions else regions ++ region ∷ []

-- the loop over the region availability
unfoldable pub offered_plans : List RegionAvailability → Dict (List Text) → Dict (List Text)
offered_plans [] offered = offered
offered_plans (off ∷ offs) offered =
    let regions = regions_or_none (lookup off.plan offered) in
    offered_plans offs (
      insert off.plan (if off.available then insert_region off.region regions else regions) offered)

-- the loops that build allRegions
unfoldable pub add_regions : List Text → List Text → List Text
add_regions [] all = all
add_regions (region ∷ regions) all = add_regions regions (insert_region region all)

unfoldable pub all_regions : Dict (List Text) → List Text → List Text
unfolding add_regions
all_regions [] all = all
all_regions ((plan, regions) ∷ offered) all = all_regions offered (add_regions regions all)

-- the memory and the ephemeral storage that a node reports
unfoldable pub actual_capacity : ResourceList → ResourceList
unfolding lookup
actual_capacity capacity =
    entry_if resource_memory (lookup resource_memory capacity)
    ++ entry_if resource_ephemeral_storage (lookup resource_ephemeral_storage capacity)

-- the cached capacity, refreshCache and capacityChanged
pub record Observed : Type 0 where
  pub cached : ResourceList
  pub refresh : Bool
  pub changed : Bool

-- before the loop
abbrev unobserved : ResourceList → Observed
unobserved cached = record { cached = cached; refresh = false; changed = false }

-- the body of the loop, on the cached quantity
unfoldable pub observe_quantity : Text → Quantity → Option Quantity → Observed → Observed
unfolding quantity_gt
observe_quantity name quantity none o = record {
  cached = insert name quantity o.cached;
  refresh = true;
  changed = true;
}
observe_quantity name quantity (some before) o = if quantity_gt quantity before then o else record {
  cached = insert name quantity o.cached;
  refresh = true;
  changed = o.changed || quantity_gt before quantity;
}

unfoldable pub observe_all : ResourceList → Observed → Observed
unfolding observe_quantity
observe_all [] o = o
observe_all ((name, quantity) ∷ actual) o =
    observe_all actual (observe_quantity name quantity (lookup name o.cached) o)

-- copyResourceList
unfoldable pub copy_resource_list : ResourceList → ResourceList → ResourceList
copy_resource_list [] copied = copied
copy_resource_list ((name, quantity) ∷ list) copied =
    copy_resource_list list (insert name quantity copied)

abbrev copied_or_empty : Option ResourceList → ResourceList
copied_or_empty none = []
copied_or_empty (some cached) = copy_resource_list cached []

module _ (s : Setup) where
  abbrev flush_types_if : Bool → TypeProvider s → TypeProvider s
  flush_types_if changed p = record p {
    types_cache = if changed then s.types_ops.flush p.types_cache else p.types_cache;
  }

  -- UpdateInstanceTypes, on the answer of ListTypes
  unfoldable pub update_instance_types :
      ℕ → Result (List LinodeType) → TypeProvider s → Option Err × TypeProvider s
  unfolding types_by_id
  update_instance_types now (err x) p = (some (wrap x), p)
  update_instance_types now (ok types) p =
      let (changed, monitor) = s.types_changed now types p.monitor in
      (
        none,
        record (flush_types_if changed p) { monitor = monitor; types_info = types_by_id types [] },
      )

  abbrev flush_offerings_if : Bool → TypeProvider s → TypeProvider s
  flush_offerings_if true p = record p {
    types_cache = s.types_ops.flush p.types_cache;
    offering_provider = invalidate_cache s.offering_ops p.offering_provider;
  }
  flush_offerings_if false p = p

  -- UpdateInstanceTypeOfferings, on the answer of GetRegionAvailability
  unfoldable pub update_instance_type_offerings :
      ℕ → Result (List RegionAvailability) → TypeProvider s → Option Err × TypeProvider s
  unfolding offered_plans all_regions
  update_instance_type_offerings now (err x) p = (some (wrap x), p)
  update_instance_type_offerings now (ok availability) p =
      let offered = offered_plans availability [] in
      let regions = all_regions offered [] in
      let (changed, monitor) = s.offered_changed now offered p.monitor in
      let (_, last) = s.regions_changed now regions monitor in
      (
        none,
        record (flush_offerings_if changed p) {
          offered = offered;
          regions = regions;
          monitor = last;
        },
      )

  -- Reset
  unfoldable pub reset : TypeProvider s → TypeProvider s
  reset p = record p {
    types_info = [];
    offered = [];
    types_cache = s.types_ops.flush p.types_cache;
    capacity_cache = s.capacity_ops.flush p.capacity_cache;
  }

  -- the end of UpdateInstanceTypeCapacityFromNode
  abbrev store_observed : TypeProvider s → ℕ → Text → ClassSettings → Observed → TypeProvider s
  store_observed p now key node_class o =
      if o.refresh
      then record p {
        capacity_cache = s.capacity_ops.set_default p.capacity_cache now key o.cached;
        types_cache =
            if o.changed
            then s.types_ops.delete_key p.types_cache (types_cache_key s node_class)
            else p.types_cache;
      }
      else p

  -- on the actual capacity
  abbrev observe_actual : TypeProvider s → ℕ → Text → ClassSettings → ResourceList → TypeProvider s
  observe_actual p now key node_class [] = p
  observe_actual p now key node_class (a ∷ actual) = store_observed p now key node_class (
      observe_all (a ∷ actual)
        (unobserved (copied_or_empty (s.capacity_ops.get p.capacity_cache now key))))

  -- UpdateInstanceTypeCapacityFromNode
  unfoldable pub update_instance_type_capacity_from_node :
      ℕ → Node → ClassSettings → TypeProvider s → TypeProvider s
  unfolding actual_capacity observe_all copy_resource_list discovered_capacity_cache_key at
  update_instance_type_capacity_from_node now node node_class p =
      observe_actual p now
        (discovered_capacity_cache_key s (at node.labels label_instance_type) node_class) node_class
        (actual_capacity node.capacity)
