-- ===== src/InstanceTypes/Refresh/Observations.antt =====
-- The discovered capacity of an instance type after the nodes that registered.
use karpenter_provider_linod.Base.{
  ℕ, ◌+◌, ◌≤◌, ◌<◌, ◌≡◌, refl, sym, ap, ◌∙◌, subst, inl, inr, Bool, true, ◌&&◌, ◌||◌, Option, none,
  some, List, [], ◌∷◌, arith, leb, leb→le, Bool-cases, All, Text, text_eq, lookup, or_else,
  lookup-assign,
}
use karpenter_provider_linod.Objects.{at}
use karpenter_provider_linod.Cache.{CacheLaws}
use karpenter_provider_linod.InstanceTypes.Types.{
  Quantity, ResourceList, InstanceType, LinodeType, ClassSettings,
}
use karpenter_provider_linod.InstanceTypes.Signals.{resource_memory, resource_ephemeral_storage}
use karpenter_provider_linod.InstanceTypes.Store.{
  discovered_capacity_cache_key, discover, resolve_found, get_type, Setup, TypeProvider,
}
use karpenter_provider_linod.InstanceTypes.Refresh.{
  label_instance_type, actual_capacity, store_observed, observe_actual,
  update_instance_type_capacity_from_node, Node, Observed,
}
use karpenter_provider_linod.InstanceTypes.Refresh.Discovered.{smaller, lookup_in, nodup_in}
use karpenter_provider_linod.Lke.State.{Result, ok, err}
use karpenter_provider_linod.InstanceTypes.Refresh.Window.{
  discovered_capacity_cache_ttl, update-Shows, Shows,
}

-- from a time on, in order, up to another one
abbrev pub in_order : ℕ → ℕ → List (ℕ × Node) → Bool
in_order from later [] = leb from later
in_order from later ((now, node) ∷ nodes) = leb from now && in_order now later nodes

le_of_in_order :
    (from later : ℕ) (nodes : List (ℕ × Node)) → in_order from later nodes ≡ true → from ≤ later
le_of_in_order from later [] h = leb→le from later h
le_of_in_order from later ((now, node) ∷ nodes) h =
    let le = leb→le from now (ground (arith, h)) in
    let rest = le_of_in_order now later nodes (ground (arith, h)) in omega arith

-- the smallest of a quantity and of those that the nodes report
abbrev pub smallest : Text → Option Quantity → List (ℕ × Node) → Option Quantity
smallest k v [] = v
smallest k v ((now, node) ∷ nodes) = smallest k (smaller v (lookup k node.capacity)) nodes

module _ (s : Setup) where
  -- UpdateInstanceTypeCapacityFromNode for one node after another, each at its time
  abbrev pub observe_nodes : ClassSettings → List (ℕ × Node) → TypeProvider s → TypeProvider s
  observe_nodes node_class [] p = p
  observe_nodes node_class ((now, node) ∷ nodes) p =
      observe_nodes node_class nodes
        (update_instance_type_capacity_from_node s now node node_class p)

  observe_nodes-Shows :
      (laws : CacheLaws s.capacity_ops discovered_capacity_cache_ttl) (node_class : ClassSettings)
      (name k : Text) (first later : ℕ)
      → (text_eq k resource_memory || text_eq k resource_ephemeral_storage) ≡ true
      → later < first + discovered_capacity_cache_ttl
      → (nodes : List (ℕ × Node)) (from : ℕ) (v : Option Quantity) (p : TypeProvider s)
      → first ≤ from
      → Shows s p.capacity_cache
          (discovered_capacity_cache_key s name node_class)
          k
          from
          (later + 1)
          v
      → All (λ (now, node). text_eq (at node.labels label_instance_type) name ≡ true) nodes
      → in_order from later nodes ≡ true
      → (lookup_in k (
            s.capacity_ops.get
              (observe_nodes node_class nodes p).capacity_cache
              later
              (discovered_capacity_cache_key s name node_class))
          ≡ smallest k v nodes)
        × (nodup_in (
              s.capacity_ops.get
                (observe_nodes node_class nodes p).capacity_cache
                later
                (discovered_capacity_cache_key s name node_class))
            ≡ true)
  observe_nodes-Shows laws node_class name k first later known fresh [] from v p le h named order =
      h.shows later (leb→le from later order) (omega arith)
  observe_nodes-Shows laws node_class name k first later known fresh ((now, node) ∷ nodes) from v p
        le h (named, rest) order =
      let after = leb→le from now (ground (arith, order)) in
      let in_time = le_of_in_order now later nodes (ground (arith, order)) in
      observe_nodes-Shows laws node_class name k first later known fresh nodes now
        (smaller v (lookup k node.capacity))
        (update_instance_type_capacity_from_node s now node node_class p) (omega arith)
        (update-Shows s laws node_class name k from now (later + 1) v node p known named h after
          (omega arith) (omega arith))
        rest (ground (arith, order))

  update-types_info :
      (now : ℕ) (node : Node) (node_class : ClassSettings) (p : TypeProvider s)
      → (update_instance_type_capacity_from_node s now node node_class p).types_info ≡ p.types_info
  unfolding update_instance_type_capacity_from_node
  update-types_info now node node_class p = actual (actual_capacity node.capacity)
    where
      actual :
          (list : ResourceList)
          → (observe_actual s p now
              (discovered_capacity_cache_key s (at node.labels label_instance_type) node_class)
              node_class
              list).types_info
            ≡ p.types_info
      actual [] = refl
      actual (a ∷ list) = stored _
        where
          stored :
              (o : Observed)
              → (store_observed s p now
                  (discovered_capacity_cache_key s (at node.labels label_instance_type) node_class)
                  node_class
                  o).types_info
                ≡ p.types_info
          stored o = elim (Bool-cases o.refresh) [
            | inl set ↦ rw set refl
            | inr unset ↦ rw unset refl
          ]

  observe_nodes-types_info :
      (node_class : ClassSettings) (nodes : List (ℕ × Node)) (p : TypeProvider s)
      → (observe_nodes node_class nodes p).types_info ≡ p.types_info
  observe_nodes-types_info node_class [] p = refl
  observe_nodes-types_info node_class ((now, node) ∷ nodes) p =
      observe_nodes-types_info node_class nodes _ ∙ update-types_info now node node_class p

  -- the quantity of a resource in an instance type that was found
  abbrev pub capacity_of : Text → Result InstanceType → Option Quantity
  capacity_of k (ok it) = lookup k it.capacity
  capacity_of k (err x) = none

  capacity_of-discover :
      (k : Text) (it : InstanceType) (discovered : Option ResourceList)
      → nodup_in discovered ≡ true
      → lookup k (discover s it discovered).capacity
        ≡ or_else (lookup_in k discovered) (lookup k it.capacity)
  capacity_of-discover k it none h = refl
  capacity_of-discover k it (some m) h = lookup-assign k it.capacity m h

  -- Given the laws of the cache, when nodes of one instance type and node class are observed in order
  -- and nothing was cached for them, then within sixty days of the first the cached memory or storage
  -- is the smallest one that any of them reported, and that is the capacity of the instance type that
  -- the provider resolves; a quantity that none reported stays the estimate.
  pub get_type-observed :
      (laws : CacheLaws s.capacity_ops discovered_capacity_cache_ttl) (node_class : ClassSettings)
      (name k : Text) (first later : ℕ) (nodes : List (ℕ × Node)) (p : TypeProvider s)
      (info : LinodeType) (it : InstanceType)
      → (text_eq k resource_memory || text_eq k resource_ephemeral_storage) ≡ true
      → later < first + discovered_capacity_cache_ttl
      → ((t : ℕ)
          → s.capacity_ops.get p.capacity_cache t (discovered_capacity_cache_key s name node_class)
            ≡ none)
      → All (λ (now, node). text_eq (at node.labels label_instance_type) name ≡ true) nodes
      → in_order first later nodes ≡ true
      → lookup name p.types_info ≡ some info
      → s.resolve info node_class ≡ some it
      → it.name ≡ name
      → (lookup_in k (
            s.capacity_ops.get
              (observe_nodes node_class nodes p).capacity_cache
              later
              (discovered_capacity_cache_key s name node_class))
          ≡ smallest k none nodes)
        × (capacity_of k (get_type s (observe_nodes node_class nodes p) later node_class name)
            ≡ or_else (smallest k none nodes) (lookup k it.capacity))
  unfolding get_type
  get_type-observed laws node_class name k first later nodes p info it known fresh empty named order
        found resolves same =
      let (value, apart) =
        observe_nodes-Shows laws node_class name k first later known fresh nodes first none p
          (omega arith) (record { shows = λ t l u. rw (empty t) (refl, refl) }) named order in
      (
        value,
        ap
              (λ types. capacity_of k (
                resolve_found s (observe_nodes node_class nodes p) later node_class
                  (lookup name types)))
              (observe_nodes-types_info node_class nodes p)
            ∙ rw (found, resolves)
                (capacity_of-discover k it _
                    (subst (λ n. nodup_in (cached n) ≡ true) (sym same) apart)
                  ∙ ap (λ n. or_else (lookup_in k (cached n)) (lookup k it.capacity)) same
                  ∙ ap (λ o. or_else o (lookup k it.capacity)) value),
      )
    where
      cached : Text → Option ResourceList
      cached n =
          s.capacity_ops.get (observe_nodes node_class nodes p).capacity_cache later
            (discovered_capacity_cache_key s n node_class)
