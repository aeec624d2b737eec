-- ===== src/Lke/Locks.antt =====
-- The pool locks in the events of a run: the discipline that Create and Delete follow.
pub mod Create
pub mod Delete
use karpenter_provider_linod.Base.{
  ◌≡◌, refl, Bool, true, false, Option, none, some, List, ◌∷◌, Text,
}
use karpenter_provider_linod.Lke.State.{
  Env, Call, Event, State, update_instance, create_node_pool, update_node_pool, delete_node_pool,
  delete_node_pool_node, lock, unlock, called,
}
use karpenter_provider_linod.Lke.Keeps.{Reading}

-- a request that changes an instance or a pool
abbrev pub is_write : Call → Bool
is_write (update_instance id tags) = true
is_write (create_node_pool options) = true
is_write (update_node_pool pool options) = true
is_write (delete_node_pool pool) = true
is_write (delete_node_pool_node node) = true
is_write _ = false

-- Events after those of `before` in which a lock is taken only while none is held and only with a key
-- that satisfies `Own`, the lock that is held is the one released, and every request that writes is made
-- while a lock is held. The index is the lock held at the end.
pub data Locked (Own : Text → Type 0) (before : List Event)
    : Option Text → List Event → Type 0 where
  start : Locked Own before none before
  locks :
      {events : List Event} (key : Text)
      → Own key
      → Locked Own before none events
      → Locked Own before (some key) (lock key ∷ events)
  unlocks :
      {events : List Event} (key : Text)
      → Locked Own before (some key) events
      → Locked Own before none (unlock key ∷ events)
  reads :
      {held : Option Text} {events : List Event} (c : Call) (success : Bool)
      → is_write c ≡ false
      → Locked Own before held events
      → Locked Own before held (called c success ∷ events)
  writes :
      {key : Text} {events : List Event} (c : Call) (success : Bool)
      → Locked Own before (some key) events
      → Locked Own before (some key) (called c success ∷ events)

unfoldable pub Holding : {e : Env} → (Text → Type 0) → List Event → Option Text → State e → Type 0
Holding Own before held s = Locked Own before held s.events

pub Holding-Reading :
    (e : Env) (Own : Text → Type 0) (before : List Event) (held : Option Text)
    → Reading e (Holding Own before held)
unfolding Holding
Holding-Reading e Own before held = record {
  lists_instances = λ filter s h. reads _ _ refl h;
  gets_instance = λ id s h. reads _ _ refl h;
  gets_availability = λ region s h. reads _ _ refl h;
  lists_pools = λ id s h. reads _ _ refl h;
  gets_pool = λ id pool s h. reads _ _ refl h;
  caches = λ c s h. h;
}
