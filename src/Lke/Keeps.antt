-- ===== src/Lke/Keeps.antt =====
-- What a run of the LKE provider keeps: rules for its actions, and what a property of the state has to
-- be kept by, so that the operations keep it.
pub mod Pools
pub mod Claims
pub mod Create
pub mod Loop
use karpenter_provider_linod.Base.{
  ℕ, inl, inr, Bool, true, false, Option, none, List, if◌then◌else◌, Text, ℤ,
}
use karpenter_provider_linod.Objects.{UpdateStrategy, PoolCreateOptions}
use karpenter_provider_linod.Offerings.{UnavailableOfferings}
use karpenter_provider_linod.Lke.State.{
  Outcome-cases, Exec, ◌>>=◌, ◌>>◌, request, modify, Env, State, list_instances, get_instance,
  update_instance, get_region_availability, list_node_pools, get_node_pool, create_node_pool,
  update_node_pool,
}

abbrev pub Keeps : {e : Env} {A : Type 0} → (State e → Type 0) → Exec e A → Type 0
Keeps {e} P m = (s : State e) → P s → P (m s).1

module _ {e : Env} {A B : Type 0} (P : State e → Type 0) where
  pub Keeps-bind :
      (m : Exec e A) (f : A → Exec e B) → Keeps P m → ((a : A) → Keeps P (f a)) → Keeps P (m >>= f)
  Keeps-bind m f hm hf s h = elim (Outcome-cases (m s).0) [
    | inl (a, eq) ↦ rw eq (hf a (m s).1 (hm s h))
    | inr (inl (x, eq)) ↦ rw eq (hm s h)
    | inr (inr eq) ↦ rw eq (hm s h)
  ]

  pub Keeps-then : (m : Exec e A) (k : Exec e B) → Keeps P m → Keeps P k → Keeps P (m >> k)
  Keeps-then m k hm hk = Keeps-bind m (λ _. k) hm (λ _. hk)

module _ {e : Env} {A : Type 0} (P : State e → Type 0) where
  pub Keeps-if : (b : Bool) (m k : Exec e A) → Keeps P m → Keeps P k → Keeps P (if b then m else k)
  Keeps-if true m k hm hk = hm
  Keeps-if false m k hm hk = hk

-- Kept by the requests that only read, and by the cache of instances.
pub record Reading (e : Env) (P : State e → Type 0) : Type 0 where
  pub lists_instances :
      (filter : List Text) → Keeps P (request (list_instances filter) (e.api.list_instances filter))
  pub gets_instance : (id : ℤ) → Keeps P (request (get_instance id) (e.api.get_instance id))
  pub gets_availability :
      (region : Text)
      → Keeps P (request (get_region_availability region) (e.api.get_region_availability region))
  pub lists_pools : (id : ℤ) → Keeps P (request list_node_pools (e.api.list_node_pools id))
  pub gets_pool :
      (id pool : ℤ) → Keeps P (request (get_node_pool pool) (e.api.get_node_pool id pool))
  pub caches : (c : e.NodeCache) → Keeps P (modify λ s. record s { node_cache = c })

-- Kept besides by the requests of Create that write, but for the one that scales a pool.
pub record Writing (e : Env) (P : State e → Type 0) : Type 0 where
  pub reading : Reading e P
  pub updates_instance :
      (id : ℤ) (tags : List Text)
      → Keeps P (request (update_instance id tags) (e.api.update_instance id tags))
  pub creates_pool :
      (id : ℤ) (options : PoolCreateOptions)
      → Keeps P (request (create_node_pool options) (e.api.create_node_pool id options))
  pub updates_version :
      (id pool : ℤ) (version : Option Text) (strategy : Option UpdateStrategy)
      → Keeps P (
          request
            (update_node_pool pool
              (record { count = none; k8s_version = version; update_strategy = strategy }))
            (e.api.update_node_pool id pool
              (record { count = none; k8s_version = version; update_strategy = strategy })))
  pub marks :
      (u : UnavailableOfferings e.OfferingCache)
      → Keeps P (modify λ s. record s { unavailable_offerings = u })
  pub sleeps : (d : ℕ) → Keeps P (modify λ s. record s { world = e.sleep d s.world })
  pub creates : Keeps P (modify λ s. record s { created_pool = true })
