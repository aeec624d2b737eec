-- ===== src/InstanceTypes/Store.antt =====
-- The instance type provider of pkg/providers/instancetype/instancetype.go. Its locks let an update
-- run alone, so each operation is one step.
use karpenter_provider_linod.Base.{
  ℕ, Bool, true, false, Option, none, some, List, [], ◌∷◌, ◌++◌, if◌then◌else◌, Text, text_eq, Dict,
  lookup, assign,
}
use karpenter_provider_linod.Errors.{message}
use karpenter_provider_linod.Cache.{CacheOps}
use karpenter_provider_linod.Lke.State.{Result, ok, err}
use karpenter_provider_linod.Offerings.{UnavailableOfferings}
use karpenter_provider_linod.InstanceTypes.Types.{
  ResourceList, Offering, InstanceType, LinodeType, ClassSettings,
}
use karpenter_provider_linod.InstanceTypes.Offers.{
  inject_offerings, new_offering_provider, OfferingProvider, Plans,
}

-- The caches, the change monitor of Karpenter, the resolver and the hashes that the provider is made of.
pub record Setup : Type 1 where
  pub TypesCache : Type 0
  pub CapacityCache : Type 0
  pub OfferingCache : Type 0
  pub MarkCache : Type 0
  pub types_ops : CacheOps TypesCache (List InstanceType)
  pub capacity_ops : CacheOps CapacityCache ResourceList
  pub offering_ops : CacheOps OfferingCache (List Offering)
  pub mark_ops : CacheOps MarkCache (Unit {0})
  -- p.cm.HasChanged("instance-types", …), ("instance-type-offering", …) and ("Regions", …)
  pub Monitor : Type 0
  pub types_changed : ℕ → List LinodeType → Monitor → Bool × Monitor
  pub offered_changed : ℕ → Dict (List Text) → Monitor → Bool × Monitor
  pub regions_changed : ℕ → List Text → Monitor → Bool × Monitor
  -- the Resolver; `none` is nil
  pub resolve : LinodeType → ClassSettings → Option InstanceType
  pub resolver_key : ClassSettings → Text
  -- hashstructure.Hash of the regions and of the images, as sixteen hexadecimal digits
  pub regions_hash : List Text → Text
  pub images_hash : List Text → Text

-- lo.Find by the name
unfoldable pub find_type : Text → List InstanceType → Option InstanceType
unfolding text_eq
find_type name [] = none
find_type name (it ∷ its) =
    let later = find_type name its in if text_eq it.name name then some it else later

module _ (s : Setup) where
  -- DefaultProvider
  pub record TypeProvider : Type 0 where
    pub types_info : Dict LinodeType
    pub offered : Dict (List Text)
    pub regions : List Text
    pub types_cache : s.TypesCache
    pub capacity_cache : s.CapacityCache
    pub monitor : s.Monitor
    pub offering_provider : OfferingProvider s.OfferingCache

  -- NewDefaultProvider
  unfoldable pub new_type_provider :
      s.TypesCache → s.OfferingCache → s.CapacityCache → s.Monitor → TypeProvider
  new_type_provider types_cache offering_cache capacity_cache monitor = record {
    types_info = [];
    offered = [];
    regions = [];
    types_cache = types_cache;
    capacity_cache = capacity_cache;
    monitor = monitor;
    offering_provider = new_offering_provider offering_cache;
  }

  -- cacheKey
  unfoldable pub types_cache_key : ClassSettings → Text
  types_cache_key node_class = s.images_hash node_class.images ++ b'-' ∷ s.resolver_key node_class

  unfoldable pub discovered_capacity_cache_key : Text → ClassSettings → Text
  discovered_capacity_cache_key instance_type node_class =
      instance_type ++ b'-' ∷ s.images_hash node_class.images

  -- it with the discovered quantities
  abbrev pub discover : InstanceType → Option ResourceList → InstanceType
  discover it none = it
  discover it (some discovered) = record it { capacity = assign it.capacity discovered }

  abbrev pub resolved : TypeProvider → ℕ → ClassSettings → Option InstanceType → Result InstanceType
  resolved p now node_class none = err message
  resolved p now node_class (some it) = ok (
      discover it (
        s.capacity_ops.get p.capacity_cache now (discovered_capacity_cache_key it.name node_class)))

  abbrev pub resolve_found :
      TypeProvider → ℕ → ClassSettings → Option LinodeType → Result InstanceType
  resolve_found p now node_class none = err message
  resolve_found p now node_class (some info) = resolved p now node_class (s.resolve info node_class)

  -- get
  unfoldable pub get_type : TypeProvider → ℕ → ClassSettings → Text → Result InstanceType
  unfolding discovered_capacity_cache_key
  get_type p now node_class name = resolve_found p now node_class (lookup name p.types_info)

  abbrev kept : Result InstanceType → List InstanceType → List InstanceType
  kept (ok it) its = it ∷ its
  kept (err x) its = its

  -- lo.FilterMapToSlice over the instance types
  unfoldable pub resolve_all :
      TypeProvider → ℕ → ClassSettings → Dict LinodeType → List InstanceType
  unfolding get_type
  resolve_all p now node_class [] = []
  resolve_all p now node_class ((name, info) ∷ types) =
      kept (get_type p now node_class name) (resolve_all p now node_class types)

  abbrev is_empty : {V : Type 0} → Dict V → Bool
  is_empty [] = true
  is_empty (_ ∷ _) = false

  -- the instance types without offerings, cached or resolved
  unfoldable pub cached_types :
      TypeProvider
      → ℕ
      → ClassSettings
      → Option (List InstanceType)
      → List InstanceType × TypeProvider
  unfolding types_cache_key resolve_all
  cached_types p now node_class (some its) = (its, p)
  cached_types p now node_class none =
      let its = resolve_all p now node_class p.types_info in
      (
        its,
        record p {
          types_cache = s.types_ops.set_default p.types_cache now (types_cache_key node_class) its;
        },
      )

  abbrev plans_of : TypeProvider → Plans
  plans_of p = record { types = p.types_info; regions = p.regions; offered = p.offered }

  abbrev with_offerings :
      UnavailableOfferings s.MarkCache
      → ℕ
      → List InstanceType
      → TypeProvider
      → List InstanceType × TypeProvider
  with_offerings u now its p =
      let (injected, provider) =
        inject_offerings s.offering_ops s.mark_ops s.regions_hash u now (plans_of p)
          p.offering_provider its in
      (injected, record p { offering_provider = provider })

  -- List
  unfoldable pub list_types :
      UnavailableOfferings s.MarkCache
      → ℕ
      → ClassSettings
      → TypeProvider
      → Result (List InstanceType) × TypeProvider
  unfolding types_cache_key cached_types inject_offerings
  list_types u now node_class p =
      let (its, after) =
        cached_types p now node_class
          (s.types_ops.get p.types_cache now (types_cache_key node_class)) in
      let (injected, last) = with_offerings u now its after in
      if is_empty p.types_info
      then (err message, p)
      else if is_empty p.offered
      then (err message, p)
      else (ok injected, last)

  abbrev find_cached : Text → Option (List InstanceType) → Option InstanceType
  find_cached name none = none
  find_cached name (some its) = find_type name its

  abbrev or_get : Option InstanceType → Result InstanceType → Result InstanceType
  or_get none found = found
  or_get (some it) found = ok it

  -- Get
  unfoldable pub get_cached_type : TypeProvider → ℕ → ClassSettings → Text → Result InstanceType
  unfolding types_cache_key get_type find_type
  get_cached_type p now node_class name =
      if is_empty p.types_info
      then err message
      else if is_empty p.offered
      then err message
      else or_get
          (find_cached name (s.types_ops.get p.types_cache now (types_cache_key node_class)))
          (get_type p now node_class name)
