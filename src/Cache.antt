-- ===== src/Cache.antt =====
-- What the program relies on of the expiring caches of github.com/patrickmn/go-cache: its operations,
-- and its documented behaviour as laws. Times and durations are nanoseconds.
pub mod Sample
use karpenter_provider_linod.Base.{
  ℕ, ◌+◌, ◌≤◌, ◌<◌, ◌≡◌, Bool, false, Option, none, some, if◌then◌else◌, Text, text_eq, ◌⊎◌,
}

-- a *cache.Cache with values in `V`; the reading of the clock is an argument
pub record CacheOps (C V : Type 0) : Type 0 where
  pub get : C → ℕ → Text → Option V
  pub set_default : C → ℕ → Text → V → C
  pub delete_key : C → Text → C
  pub flush : C → C
  -- the item is stored, expired or not
  pub has_item : C → Text → Bool

-- The laws for a cache with default expiration `ttl`.
pub record CacheLaws {C V : Type 0} (ops : CacheOps C V) (ttl : ℕ) : Type 0 where
  pub get-set_self :
      (c : C) (now later : ℕ) (k : Text) (v : V)
      → now ≤ later
      → later < now + ttl
      → ops.get (ops.set_default c now k v) later k ≡ some v
  pub get-set_only :
      (c : C) (now later : ℕ) (k : Text) (v : V)
      → (ops.get (ops.set_default c now k v) later k ≡ none)
        ⊎ (ops.get (ops.set_default c now k v) later k ≡ some v)
  pub get-set_ne :
      (c : C) (now later : ℕ) (j k : Text) (v : V)
      → text_eq k j ≡ false
      → ops.get (ops.set_default c now k v) later j ≡ ops.get c later j
  pub get-delete :
      (c : C) (now : ℕ) (j k : Text)
      → ops.get (ops.delete_key c k) now j ≡ (if text_eq k j then none else ops.get c now j)
  pub get-flush : (c : C) (now : ℕ) (j : Text) → ops.get (ops.flush c) now j ≡ none
  pub get-has_item :
      (c : C) (now : ℕ) (k : Text) → ops.has_item c k ≡ false → ops.get c now k ≡ none
