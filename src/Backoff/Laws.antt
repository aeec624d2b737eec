-- ===== src/Backoff/Laws.antt =====
-- How the delays grow, when a key is held back, and that failures of one key leave the others alone.
use native.Mathlib.Nat.{pow-suc, mul_assoc, add-zero, add-suc, suc-add, zero-add}
use karpenter_provider_linod.Base.{
  ℕ, suc, ◌+◌, ◌*◌, ◌^◌, ◌≤◌, ◌<◌, min, ◌≡◌, false, none, some, List, [], ◌∷◌, length, Text,
  text_eq, ap, ◌∙◌, arith, leb, if◌then◌else◌, Option, text_eq_refl,
}
use karpenter_provider_linod.Errors.{Err, wrap}
use karpenter_provider_linod.Cache.{CacheOps, CacheLaws}
use karpenter_provider_linod.Backoff.{
  backoff_ttl, check, BackoffEntry, BackoffTracker, check_entry, next_entry, record_failure, clear,
}

-- the delay after `n + 1` failures in a row
abbrev pub delay_after : ℕ → ℕ → ℕ → ℕ
delay_after base max_delay n = min (base * 2 ^ n) max_delay

module _ {C : Type 0} (ops : CacheOps C BackoffEntry) where
  -- failures of one key at the given times
  pub record_failures : BackoffTracker C → Text → List (ℕ × Err) → BackoffTracker C
  record_failures b key [] = b
  record_failures b key ((now, err) ∷ rest) =
      record_failures (record_failure ops b now key err) key rest

  -- the tracker holds this entry for the key, until the cache lets it go
  pub record Holds (b : BackoffTracker C) (now : ℕ) (key : Text) (e : BackoffEntry) : Type 0 where
    pub entry :
        (later : ℕ) → now ≤ later → later < now + backoff_ttl → ops.get b.entries later key ≡ some e

-- each failure comes after the one before it, while that one's entry is still kept
abbrev pub InTime : ℕ → List (ℕ × Err) → Type 0
InTime last [] = Unit
InTime last ((now, err) ∷ rest) = (last ≤ now) × (now < last + backoff_ttl) × InTime now rest

abbrev pub last_time : ℕ → List (ℕ × Err) → ℕ
last_time last [] = last
last_time last ((now, err) ∷ rest) = last_time now rest

abbrev pub last_error : Err → List (ℕ × Err) → Err
last_error err [] = err
last_error _ ((now, err) ∷ rest) = last_error err rest

delay_step :
    (base max_delay n : ℕ)
    → min (min (base * 2 ^ n) max_delay * 2) max_delay ≡ min (base * 2 ^ suc n) max_delay
delay_step base max_delay n = rw (pow-suc 2 n, ← mul_assoc base (2 ^ n) 2) (omega arith)

-- the entry after `n + 1` failures, the last at `now`
abbrev pub entry_after : ℕ → ℕ → ℕ → ℕ → Err → BackoffEntry
entry_after base max_delay n now err = record {
  failures = n + 1;
  delay = delay_after base max_delay n;
  retry_at = now + delay_after base max_delay n;
  cause = err;
}

-- the entry that record_failure stores
abbrev stored : ℕ → ℕ → ℕ → Err → Option BackoffEntry → BackoffEntry
stored base max_delay now err prev =
    let e = next_entry base max_delay err prev in record e { retry_at = now + e.delay }

entry_path :
    (n m d d' now : ℕ) (err : Err)
    → n ≡ m
    → d ≡ d'
    → ◌≡◌ {A = BackoffEntry}
        (record { failures = n; delay = d; retry_at = now + d; cause = err })
        (record { failures = m; delay = d'; retry_at = now + d'; cause = err })
entry_path n m d d' now err p q =
    λ i. record { failures = p i; delay = q i; retry_at = now + q i; cause = err }

stored_next :
    (base max_delay n last now : ℕ) (err0 err : Err)
    → stored base max_delay now err (some (entry_after base max_delay n last err0))
      ≡ entry_after base max_delay (suc n) now err
stored_next base max_delay n last now err0 err =
    entry_path (n + 1 + 1) (suc n + 1) _ _ now err (omega arith) (delay_step base max_delay n)

stored_first :
    (base max_delay now : ℕ) (err : Err)
    → base ≤ max_delay
    → stored base max_delay now err none ≡ entry_after base max_delay 0 now err
stored_first base max_delay now err h =
    entry_path 1 (0 + 1) base (min (base * 2 ^ 0) max_delay) now err (omega arith) (omega arith)

module _ {C : Type 0} (ops : CacheOps C BackoffEntry) (laws : CacheLaws ops backoff_ttl) where
  record_failure-Holds :
      (b : BackoffTracker C) (key : Text) (now : ℕ) (err : Err) (e : BackoffEntry)
      → stored b.base b.max_delay now err (ops.get b.entries now key) ≡ e
      → Holds ops (record_failure ops b now key err) now key e
  unfolding record_failure
  record_failure-Holds b key now err e h = record {
    entry = λ later le lt. laws.get-set_self b.entries now later key _ le lt ∙ ap some h;
  }

  more_failures :
      (b : BackoffTracker C) (key : Text) (n last : ℕ) (err : Err) (rest : List (ℕ × Err))
      → Holds ops b last key (entry_after b.base b.max_delay n last err)
      → InTime last rest
      → Holds ops (record_failures ops b key rest) (last_time last rest) key (
          entry_after b.base b.max_delay
            (n + length rest)
            (last_time last rest)
            (last_error err rest))
  unfolding record_failures record_failure
  more_failures b key n last err [] h i = rw add-zero h
  more_failures b key n last err ((now, e) ∷ rest) h i =
      rw (add-suc n (length rest), ← suc-add n (length rest))
        (more_failures (record_failure ops b now key e) key (suc n) now e rest
          (record_failure-Holds b key now e _ (
            ap (stored b.base b.max_delay now e) (h.entry now i.0 i.1)
            ∙ stored_next b.base b.max_delay n last now err e))
          i.2)

  -- A first failure at `now`, then more of them in time, leave an entry with their number, the last
  -- error, the base delay doubled for each failure after the first and capped at the maximum, and
  -- the end of that delay from the last failure on.
  pub record_failures_lem :
      (b : BackoffTracker C) (key : Text) (now : ℕ) (err : Err) (rest : List (ℕ × Err))
      → b.base ≤ b.max_delay
      → ops.get b.entries now key ≡ none
      → InTime now rest
      → Holds ops
          (record_failures ops b key ((now, err) ∷ rest))
          (last_time now rest)
          key
          (entry_after b.base b.max_delay (length rest) (last_time now rest) (last_error err rest))
  unfolding record_failures record_failure
  record_failures_lem b key now err rest cap new i = rw (← zero-add (length rest)) (
      more_failures (record_failure ops b now key err) key 0 now err rest
        (record_failure-Holds b key now err _ (
          ap (stored b.base b.max_delay now err) new ∙ stored_first b.base b.max_delay now err cap))
        i)

  check-Holds :
      (b : BackoffTracker C) (now later : ℕ) (key : Text) (e : BackoffEntry)
      → Holds ops b now key e
      → now ≤ later
      → later < now + backoff_ttl
      → check ops b later key ≡ (if leb e.retry_at later then none else some (wrap e.cause))
  unfolding check
  check-Holds b now later key e h le lt = ap (check_entry later) (h.entry later le lt)

  -- Take failures of a key that had no entry, each at or after the one before it and within an hour
  -- of it, a base delay that is at most the maximum, and the laws of the cache. Within an hour of
  -- the last failure the key is held back exactly until the delay from that failure is over, where
  -- the delay is the base doubled for each failure after the first, up to the maximum; the refusal
  -- has the last error as its cause.
  pub check-record_failures :
      (b : BackoffTracker C) (key : Text) (now later : ℕ) (err : Err) (rest : List (ℕ × Err))
      → b.base ≤ b.max_delay
      → ops.get b.entries now key ≡ none
      → InTime now rest
      → last_time now rest ≤ later
      → later < last_time now rest + backoff_ttl
      → check ops (record_failures ops b key ((now, err) ∷ rest)) later key ≡ (
          if leb (last_time now rest + delay_after b.base b.max_delay (length rest)) later
          then none
          else some (wrap (last_error err rest)))
  check-record_failures b key now later err rest cap new i le lt =
      check-Holds (record_failures ops b key ((now, err) ∷ rest)) (last_time now rest) later key _
        (record_failures_lem b key now err rest cap new i) le lt

  -- Given the laws of the cache, recording a failure of one key, or clearing it, does not change the
  -- check of a key that differs from it, and a cleared key is not held back.
  pub check_frame :
      (b : BackoffTracker C) (now later : ℕ) (key sibling : Text) (err : Err)
      → text_eq key sibling ≡ false
      → (check ops (record_failure ops b now key err) later sibling ≡ check ops b later sibling)
        × (check ops (clear ops b key) later sibling ≡ check ops b later sibling)
        × (check ops (clear ops b key) later key ≡ none)
  unfolding check record_failure clear
  check_frame b now later key sibling err ne = (
    ap (check_entry later) (laws.get-set_ne b.entries now later sibling key _ ne),
    rw (laws.get-delete, ne),
    rw (laws.get-delete, text_eq_refl key),
  )

-- Doubling a delay that is at most the maximum stays in the range of int64 when the maximum is
-- below 2 ^ 62.
doubled_in_range :
    (base max_delay n : ℕ) → max_delay < 2 ^ 62 → delay_after base max_delay n * 2 < 2 ^ 63
doubled_in_range base max_delay n h = omega arith
