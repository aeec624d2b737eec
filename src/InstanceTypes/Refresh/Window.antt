-- ===== src/InstanceTypes/Refresh/Window.antt =====
-- How long the cache has the quantity that a node was seen with.
use karpenter_provider_linod.Base.{
  ℕ, ◌+◌, ◌≤◌, ◌<◌, ◌≡◌, sym, ap, ◌∙◌, subst, inl, inr, true, false, ◌||◌, Option, [], ◌∷◌, arith,
  Bool-cases, Text, text_eq, text_eq_iff, lookup, nodup_keys, nodup,
}
use karpenter_provider_linod.Objects.{at}
use karpenter_provider_linod.Cache.{CacheLaws}
use karpenter_provider_linod.InstanceTypes.Types.{Quantity, ResourceList, ClassSettings}
use karpenter_provider_linod.InstanceTypes.Signals.{resource_memory, resource_ephemeral_storage}
use karpenter_provider_linod.InstanceTypes.Store.{
  discovered_capacity_cache_key, Setup, TypeProvider,
}
use karpenter_provider_linod.InstanceTypes.Refresh.{
  label_instance_type, actual_capacity, unobserved, observe_all, copied_or_empty, store_observed,
  observe_actual, update_instance_type_capacity_from_node, Node, Observed,
}
use karpenter_provider_linod.InstanceTypes.Refresh.Discovered.{
  smaller, lookup_in, observe_all-nodup_keys, smaller-none, lookup-observe_all, observe_all-kept,
  nodup_in, lookup-copied, lookup-actual_capacity, copied_or_empty-nodup_keys, lookup-empty,
}

-- DiscoveredCapacityCacheTTL
abbrev pub discovered_capacity_cache_ttl : ℕ
discovered_capacity_cache_ttl = 5184000000000000

module _ (s : Setup) where
  -- From a time until another, the cache has one quantity of a resource under a key.
  pub record Shows (c : s.CapacityCache) (key k : Text) (from until : ℕ) (v : Option Quantity)
      : Type 0 where
    pub shows :
        (t : ℕ)
        → from ≤ t
        → t < until
        → (lookup_in k (s.capacity_ops.get c t key) ≡ v)
          × (nodup_in (s.capacity_ops.get c t key) ≡ true)

  store_observed-Shows :
      (laws : CacheLaws s.capacity_ops discovered_capacity_cache_ttl) (p : TypeProvider s)
      (from now until : ℕ) (key k : Text) (node_class : ClassSettings) (v q : Option Quantity)
      → Shows p.capacity_cache key k from until v
      → from ≤ now
      → until ≤ now + discovered_capacity_cache_ttl
      → (o : Observed) → lookup k o.cached ≡ smaller v q
      → nodup_keys o.cached ≡ true
      → (o.refresh ≡ false → smaller v q ≡ v)
      → Shows (store_observed s p now key node_class o).capacity_cache key k now until (smaller v q)
  store_observed-Shows laws p from now until key k node_class v q h le within o stored nodup kept =
      elim (Bool-cases o.refresh) [
        | inl yes_stored ↦ rw yes_stored (record {
          shows = λ t l u.
              rw (laws.get-set_self p.capacity_cache now t key o.cached l (omega arith))
                (stored, nodup);
        })
        | inr no_change ↦
            rw no_change
              (record { shows = λ t l u. rw (kept no_change) (h.shows t (omega arith) u) })
      ]

  -- the same after the loop over the quantities of a node
  observed-Shows :
      (laws : CacheLaws s.capacity_ops discovered_capacity_cache_ttl) (p : TypeProvider s)
      (from now until : ℕ) (key k : Text) (node_class : ClassSettings) (v : Option Quantity)
      (actual : ResourceList)
      → Shows p.capacity_cache key k from until v
      → from ≤ now
      → until ≤ now + discovered_capacity_cache_ttl
      → nodup_keys actual ≡ true
      → (cached : ResourceList) → lookup k cached ≡ v
      → nodup_keys cached ≡ true
      → Shows
          (store_observed s p now key node_class
            (observe_all actual (unobserved cached))).capacity_cache
          key
          k
          now
          until
          (smaller v (lookup k actual))
  observed-Shows laws p from now until key k node_class v actual h le within apart cached same
        keys =
      let after =
        lookup-observe_all k actual (unobserved cached) apart
        ∙ ap (λ w. smaller w (lookup k actual)) same in
      store_observed-Shows laws p from now until key k node_class v (lookup k actual) h le within
        (observe_all actual (unobserved cached)) after
        (observe_all-nodup_keys actual (unobserved cached) keys)
        (λ kept.
          sym after
          ∙ ap (λ m. lookup k m) ((observe_all-kept actual (unobserved cached) kept).1)
          ∙ same)

  observe_actual-Shows :
      (laws : CacheLaws s.capacity_ops discovered_capacity_cache_ttl) (p : TypeProvider s)
      (from now until : ℕ) (key k : Text) (node_class : ClassSettings) (v : Option Quantity)
      (actual : ResourceList)
      → Shows p.capacity_cache key k from until v
      → from ≤ now
      → now < until
      → until ≤ now + discovered_capacity_cache_ttl
      → nodup_keys actual ≡ true
      → Shows
          (observe_actual s p now key node_class actual).capacity_cache
          key
          k
          now
          until
          (smaller v (lookup k actual))
  observe_actual-Shows laws p from now until key k node_class v [] h le lt within apart = record {
    shows = λ t l u. rw (lookup-empty k, smaller-none v) (h.shows t (omega arith) u);
  }
  observe_actual-Shows laws p from now until key k node_class v (a ∷ actual) h le lt within apart =
      let (before, keys) = h.shows now le lt in
      observed-Shows laws p from now until key k node_class v (a ∷ actual) h le within apart
        (copied_or_empty (s.capacity_ops.get p.capacity_cache now key))
        (lookup-copied k (s.capacity_ops.get p.capacity_cache now key) keys ∙ before)
        (copied_or_empty-nodup_keys (s.capacity_ops.get p.capacity_cache now key))

  lookup-known :
      (k : Text) (capacity : ResourceList)
      → (text_eq k resource_memory || text_eq k resource_ephemeral_storage) ≡ true
      → lookup k (actual_capacity capacity) ≡ lookup k capacity
  lookup-known k capacity known =
      let (of_memory, of_storage, _) = lookup-actual_capacity capacity in
      elim (Bool-cases (text_eq k resource_memory)) [
        | inl is_memory ↦
            subst (λ j. lookup j (actual_capacity capacity) ≡ lookup j capacity)
              (sym ((text_eq_iff k resource_memory).0 is_memory)) of_memory
        | inr elsewhere ↦
            subst (λ j. lookup j (actual_capacity capacity) ≡ lookup j capacity)
              (sym
                ((text_eq_iff k resource_ephemeral_storage).0 (ground (arith, elsewhere, known))))
              of_storage
      ]

  pub update-Shows :
      (laws : CacheLaws s.capacity_ops discovered_capacity_cache_ttl) (node_class : ClassSettings)
      (name k : Text) (from now until : ℕ) (v : Option Quantity) (node : Node) (p : TypeProvider s)
      → (text_eq k resource_memory || text_eq k resource_ephemeral_storage) ≡ true
      → text_eq (at node.labels label_instance_type) name ≡ true
      → Shows p.capacity_cache (discovered_capacity_cache_key s name node_class) k from until v
      → from ≤ now
      → now < until
      → until ≤ now + discovered_capacity_cache_ttl
      → Shows
          (update_instance_type_capacity_from_node s now node node_class p).capacity_cache
          (discovered_capacity_cache_key s name node_class)
          k
          now
          until
          (smaller v (lookup k node.capacity))
  unfolding update_instance_type_capacity_from_node
  update-Shows laws node_class name k from now until v node p known named h le lt within =
      rw
        (
          (text_eq_iff (at node.labels label_instance_type) name).0 named,
          ← lookup-known k node.capacity known,
        )
        (observe_actual-Shows laws p from now until
          (discovered_capacity_cache_key s name node_class) k node_class v
          (actual_capacity node.capacity) h le lt within ((lookup-actual_capacity node.capacity).2))
