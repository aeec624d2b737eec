-- ===== src/Lke/State.antt =====
-- The state of the LKE provider and the actions on it. The Linode API, the clock and the caches are
-- not part of the repository: an `Env` names what the provider uses of them, and what other clients
-- of the API do meanwhile is in the answers of its operations.
use karpenter_provider_linod.Base.{
  ℕ, Bool, Option, List, ◌∷◌, Text, ℤ, itoa, true, false, ◌≡◌, refl, ◌⊎◌, inl, inr,
}
use karpenter_provider_linod.Errors.{Err, wrap}
use karpenter_provider_linod.Cache.{CacheOps}
use karpenter_provider_linod.Objects.{
  LinodeInstance, Instance, NodePool, PoolCreateOptions, PoolUpdateOptions, RegionAvailability,
  Tier,
}
use karpenter_provider_linod.Backoff.{BackoffEntry, BackoffTracker}
use karpenter_provider_linod.Offerings.{UnavailableOfferings}
use karpenter_provider_linod.Selection.{Catalog}

pub data Result (A : Type 0) : Type 0 where
  ok : A → Result A
  err : Err → Result A

pub Result-cases : {A : Type 0} (r : Result A) → ((a : A) × (r ≡ ok a)) ⊎ ((x : Err) × (r ≡ err x))
Result-cases (ok a) = inl (a, refl)
Result-cases (err x) = inr (x, refl)

-- LinodeAPI, as far as this provider calls it. A list of instances is asked for by the texts that
-- their tags are to contain.
pub record LinodeApi (World : Type 0) : Type 0 where
  pub list_instances : List Text → World → Result (List LinodeInstance) × World
  pub get_instance : ℤ → World → Result LinodeInstance × World
  pub update_instance : ℤ → List Text → World → Result LinodeInstance × World
  pub get_region_availability : Text → World → Result (List RegionAvailability) × World
  pub list_node_pools : ℤ → World → Result (List NodePool) × World
  pub get_node_pool : ℤ → ℤ → World → Result NodePool × World
  pub create_node_pool : ℤ → PoolCreateOptions → World → Result NodePool × World
  pub update_node_pool : ℤ → ℤ → PoolUpdateOptions → World → Result NodePool × World
  pub delete_node_pool : ℤ → ℤ → World → Result (Unit {0}) × World
  pub delete_node_pool_node : ℤ → Text → World → Result (Unit {0}) × World

pub record Env : Type 1 where
  pub World : Type 0
  pub api : LinodeApi World
  -- time.Now(), in nanoseconds; time.Sleep; ctx.Err()
  pub now : World → ℕ
  pub sleep : ℕ → World → World
  pub ctx_err : World → Option Err
  pub NodeCache : Type 0
  pub node_ops : CacheOps NodeCache Instance
  pub BackoffCache : Type 0
  pub backoff_ops : CacheOps BackoffCache BackoffEntry
  pub OfferingCache : Type 0
  pub offering_ops : CacheOps OfferingCache (Unit {0})
  pub catalog : Catalog

-- DefaultProvider and its ProviderConfig: what does not change
pub record Provider : Type 0 where
  pub cluster_id : ℤ
  pub cluster_tier : Tier
  pub region : Text
  pub create_deadline : ℕ
  pub tag_verification_timeout : ℕ
  pub retry_delay : ℕ

-- a request to the API
pub data Call : Type 0 where
  list_instances : List Text → Call
  get_instance : ℤ → Call
  update_instance : ℤ → List Text → Call
  get_region_availability : Text → Call
  list_node_pools : Call
  get_node_pool : ℤ → Call
  create_node_pool : PoolCreateOptions → Call
  update_node_pool : ℤ → PoolUpdateOptions → Call
  delete_node_pool : ℤ → Call
  delete_node_pool_node : Text → Call

-- What the provider does that others can see: its pool locks, and its requests with whether they
-- succeeded.
pub data Event : Type 0 where
  lock unlock : Text → Event
  called : Call → Bool → Event

-- The parts of DefaultProvider that change, the outside world, the events so far, the latest first,
-- and the two flags that Create hands by pointer to its attempts.
pub record State (e : Env) : Type 0 where
  pub world : e.World
  pub events : List Event
  pub node_cache : e.NodeCache
  pub delete_backoff : BackoffTracker e.BackoffCache
  pub pool_backoff : BackoffTracker e.BackoffCache
  pub unavailable_offerings : UnavailableOfferings e.OfferingCache
  pub created_pool : Bool
  pub scaled_once : Bool

-- A run returns, fails with an error, or has used up the rounds that its loops were given.
pub data Outcome (A : Type 0) : Type 0 where
  done : A → Outcome A
  fail : Err → Outcome A
  running : Outcome A

pub Outcome-cases :
    {A : Type 0} (r : Outcome A)
    → ((a : A) × (r ≡ done a)) ⊎ ((x : Err) × (r ≡ fail x)) ⊎ (r ≡ running)
Outcome-cases (done a) = inl (a, refl)
Outcome-cases (fail x) = inr (inl (x, refl))
Outcome-cases running = inr (inr refl)

abbrev pub Exec : Env → Type 0 → Type 0
Exec e A = State e → Outcome A × State e

abbrev pub continue : {e : Env} {A B : Type 0} → Outcome A → (A → Exec e B) → Exec e B
continue (done a) f s = f a s
continue (fail x) f s = (fail x, s)
continue running f s = (running, s)

infixl 10 ◌>>=◌ ◌>>◌
abbrev pub ◌>>=◌ : {e : Env} {A B : Type 0} → Exec e A → (A → Exec e B) → Exec e B
◌>>=◌ m f s = continue (m s).0 f (m s).1

abbrev pub ◌>>◌ : {e : Env} {A B : Type 0} → Exec e A → Exec e B → Exec e B
◌>>◌ m k s = continue (m s).0 (λ _. k) (m s).1

abbrev pub pure : {e : Env} {A : Type 0} → A → Exec e A
pure a s = (done a, s)

abbrev pub raise : {e : Env} {A : Type 0} → Err → Exec e A
raise x s = (fail x, s)

abbrev reified : {A : Type 0} → Outcome A → Outcome (Result A)
reified (done a) = done (ok a)
reified (fail x) = done (err x)
reified running = running

-- a call whose error is looked at: `v, err := …`
abbrev pub attempt : {e : Env} {A : Type 0} → Exec e A → Exec e (Result A)
attempt m s = (reified (m s).0, (m s).1)

abbrev pub map_fail : {A : Type 0} → (Err → Err) → Outcome A → Outcome A
map_fail f (done a) = done a
map_fail f (fail x) = fail (f x)
map_fail f running = running

-- `if err != nil { return …, fmt.Errorf("…: %w", err) }`
abbrev pub wrapped : {e : Env} {A : Type 0} → Exec e A → Exec e A
wrapped m s = (map_fail wrap (m s).0, (m s).1)

abbrev of_result : {A : Type 0} → Result A → Outcome A
of_result (ok a) = done a
of_result (err x) = fail x

abbrev pub succeeded : {A : Type 0} → Result A → Bool
succeeded (ok a) = true
succeeded (err x) = false

-- a request to the API
abbrev pub request : {e : Env} {A : Type 0} → Call → (e.World → Result A × e.World) → Exec e A
request c f s = (
  of_result (f s.world).0,
  record s { world = (f s.world).1; events = called c (succeeded (f s.world).0) ∷ s.events },
)

abbrev pub gets : {e : Env} {A : Type 0} → (State e → A) → Exec e A
gets f s = (done (f s), s)

abbrev pub modify : {e : Env} → (State e → State e) → Exec e (Unit {0})
modify f s = (done tt, f s)

abbrev released : {e : Env} {A : Type 0} → Text → Outcome A × State e → Outcome A × State e
released key (r, s) = (r, record s { events = unlock key ∷ s.events })

-- withPoolLock: the lock is released however `fn` ends. A single call is modelled, so the lock is free.
abbrev pub with_pool_lock : {e : Env} {A : Type 0} → Text → Exec e A → Exec e A
with_pool_lock key fn s = released key (fn (record s { events = lock key ∷ s.events }))

module _ (e : Env) where
  -- cacheNode
  unfoldable pub cache_node : Instance → Exec e (Unit {0})
  cache_node n = modify λ s. record s {
    node_cache = e.node_ops.set_default s.node_cache (e.now s.world) (itoa n.id) n;
  }

  -- p.nodeCache.Delete(id)
  unfoldable pub drop_node : Text → Exec e (Unit {0})
  drop_node id = modify λ s. record s { node_cache = e.node_ops.delete_key s.node_cache id }

  -- time.Sleep(d)
  unfoldable pub sleep_for : ℕ → Exec e (Unit {0})
  sleep_for d = modify λ s. record s { world = e.sleep d s.world }
