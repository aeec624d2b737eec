-- ===== src/InstanceTypes/Signals.antt =====
-- Quantities, and the eviction thresholds of pkg/providers/instancetype/types.go.
pub mod Entries
pub mod Thresholds
use karpenter_provider_linod.Base.{
  ℕ, Bool, true, false, Option, none, some, List, [], ◌∷◌, ◌++◌, ltb, ◌==◌, if◌then◌else◌, Text,
  codes, Dict, lookup, assign, pos, negsuc,
}
use karpenter_provider_linod.InstanceTypes.Types.{Quantity, ResourceList}
use karpenter_provider_linod.InstanceTypes.Gpus.{mebibytes}

-- The parsing of quantities, the floating-point steps of the source, and MaxResources of Karpenter.
-- A text that resource.MustParse or strconv.ParseFloat rejects makes the program panic; the parameters
-- are for texts that they accept.
pub record Numbers : Type 1 where
  pub Float : Type 0
  -- resource.MustParse, strconv.ParseFloat
  pub parse : Text → Quantity
  pub parse_float : Text → Float
  -- p == 100, and the constant 0
  pub is_hundred : Float → Bool
  pub zero_percent : Float
  -- resource.MustParse(fmt.Sprint(math.Ceil(capacity.AsApproximateFloat64() / 100 * p)))
  pub share : Quantity → Float → Quantity
  -- int64(math.Ceil(float64(mem.Value()) * VMMemoryOverheadPercent / 1024 / 1024))
  pub overhead_mib : ℕ → ℕ
  -- resources.MaxResources of two lists
  pub max_resources : ResourceList → ResourceList → ResourceList

abbrev pub resource_cpu : Text
resource_cpu = codes "cpu"

abbrev pub resource_memory : Text
resource_memory = codes "memory"

abbrev pub resource_ephemeral_storage : Text
resource_ephemeral_storage = codes "ephemeral-storage"

abbrev pub resource_pods : Text
resource_pods = codes "pods"

-- a.Cmp(b) > 0
unfoldable pub quantity_gt : Quantity → Quantity → Bool
quantity_gt (pos m) (pos n) = ltb n m
quantity_gt (pos m) (negsuc n) = true
quantity_gt (negsuc m) (pos n) = false
quantity_gt (negsuc m) (negsuc n) = ltb m n

-- strings.HasSuffix(s, "%"), strings.Trim(s, "%")
unfoldable pub ends_in_percent : Text → Bool
ends_in_percent [] = false
ends_in_percent (c ∷ []) = c == b'%'
ends_in_percent (c ∷ d ∷ s) = ends_in_percent (d ∷ s)

unfoldable pub trim_left : Text → Text
trim_left [] = []
trim_left (c ∷ s) = let rest = trim_left s in if c == b'%' then rest else c ∷ s

unfoldable pub trim_right : Text → Text
trim_right [] = []
trim_right (c ∷ s) =
    let rest = trim_right s in
    elim rest [ [] ↦ if c == b'%' then [] else c ∷ [] | d ∷ ds ↦ c ∷ d ∷ ds ]

abbrev pub memory_available : Text
memory_available = codes "memory.available"

abbrev pub node_fs_available : Text
node_fs_available = codes "nodefs.available"

abbrev pub image_fs_available : Text
image_fs_available = codes "imagefs.available"

-- an optional entry
abbrev pub entry_if : Text → Option Quantity → ResourceList
entry_if k none = []
entry_if k (some v) = (k, v) ∷ []

-- the signal maps that are not nil
abbrev signals_of : Option (Dict Text) → List (Dict Text)
signals_of none = []
signals_of (some m) = m ∷ []

-- len(m) == 0
abbrev pub none_set : Option (Dict Text) → Bool
none_set none = true
none_set (some []) = true
none_set (some (_ ∷ _)) = false

abbrev pub larger : Option Quantity → Option Quantity → Option Quantity
larger threshold none = threshold
larger none (some candidate) = some candidate
larger (some threshold) (some candidate) =
    if quantity_gt candidate threshold then some candidate else some threshold

module _ (n : Numbers) where
  -- mustParsePercentage
  unfoldable pub must_parse_percentage : Text → n.Float
  unfolding trim_left trim_right
  must_parse_percentage v =
      let p = n.parse_float (trim_right (trim_left v)) in
      if n.is_hundred p then n.zero_percent else p

  unfoldable pub compute_eviction_signal : Quantity → Text → Quantity
  unfolding ends_in_percent must_parse_percentage
  compute_eviction_signal capacity value =
      if ends_in_percent value
      then n.share capacity (must_parse_percentage value)
      else n.parse value

  abbrev pub signal_at : Quantity → Option Text → Option Quantity
  signal_at capacity none = none
  signal_at capacity (some value) = some (compute_eviction_signal capacity value)

  -- storageEvictionSignal
  unfoldable pub storage_eviction_signal : Quantity → Dict Text → Option Quantity
  unfolding quantity_gt
  storage_eviction_signal capacity signals =
      larger (larger none (signal_at capacity (lookup node_fs_available signals)))
        (signal_at capacity (lookup image_fs_available signals))

  -- temp, and the loop over the signal maps
  unfoldable pub signal_overrides : Quantity → Quantity → Dict Text → ResourceList
  signal_overrides memory storage signals =
      entry_if resource_memory (signal_at memory (lookup memory_available signals))
      ++ entry_if resource_ephemeral_storage (storage_eviction_signal storage signals)

  unfoldable pub override_signals :
      Quantity → Quantity → ResourceList → List (Dict Text) → ResourceList
  override_signals memory storage override [] = override
  override_signals memory storage override (m ∷ ms) =
      override_signals memory storage (n.max_resources override (signal_overrides memory storage m))
        ms

  -- the default storage threshold
  unfoldable pub default_storage_threshold : Quantity → Quantity
  unfolding quantity_gt
  default_storage_threshold storage =
      let node_fs = compute_eviction_signal storage (codes "10%") in
      let image_fs = compute_eviction_signal storage (codes "15%") in
      if quantity_gt image_fs node_fs then image_fs else node_fs

  unfoldable pub eviction_threshold :
      Quantity → Quantity → Option (Dict Text) → Option (Dict Text) → ResourceList
  eviction_threshold memory storage hard soft =
      let override = override_signals memory storage [] (signals_of hard ++ signals_of soft) in
      let defaults = (resource_ephemeral_storage, default_storage_threshold storage) ∷ [] in
      assign ((resource_memory, pos (mebibytes 100)) ∷ [])
        (if none_set hard then n.max_resources override defaults else override)
