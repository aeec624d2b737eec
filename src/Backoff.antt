-- ===== src/Backoff.antt =====
-- BackoffTracker of pkg/utils/utils.go. A call reads the clock once, as its argument `now`.
-- Durations are natural numbers: Laws shows that a doubled delay stays in the range of int64.
pub mod Laws
use karpenter_provider_linod.Base.{ℕ, ◌+◌, ◌*◌, min, Option, none, some, leb, if◌then◌else◌, Text}
use karpenter_provider_linod.Errors.{Err, wrap}
use karpenter_provider_linod.Cache.{CacheOps}

pub record BackoffEntry : Type 0 where
  pub failures : ℕ
  pub delay : ℕ
  pub retry_at : ℕ
  pub cause : Err

pub record BackoffTracker (C : Type 0) : Type 0 where
  pub entries : C
  pub base : ℕ
  pub max_delay : ℕ

-- NewBackoffTracker over an empty cache
unfoldable pub new_backoff_tracker : {C : Type 0} → C → ℕ → ℕ → BackoffTracker C
new_backoff_tracker empty base max_delay = record {
  entries = empty;
  base = base;
  max_delay = max_delay;
}

-- cache.New(time.Hour, …)
abbrev pub backoff_ttl : ℕ
backoff_ttl = 3600000000000

abbrev check_entry : ℕ → Option BackoffEntry → Option Err
check_entry now none = none
check_entry now (some e) = if leb e.retry_at now then none else some (wrap e.cause)

-- the entry that a failure leaves, before its time is set
abbrev pub next_entry : ℕ → ℕ → Err → Option BackoffEntry → BackoffEntry
next_entry base max_delay err none = record {
  failures = 1;
  delay = base;
  retry_at = 0;
  cause = err;
}
next_entry base max_delay err (some prev) = record {
  failures = prev.failures + 1;
  delay = min (prev.delay * 2) max_delay;
  retry_at = 0;
  cause = err;
}

module _ {C : Type 0} (ops : CacheOps C BackoffEntry) where
  unfoldable pub check : BackoffTracker C → ℕ → Text → Option Err
  check b now key = check_entry now (ops.get b.entries now key)

  unfoldable pub record_failure : BackoffTracker C → ℕ → Text → Err → BackoffTracker C
  record_failure b now key err =
      let entry = next_entry b.base b.max_delay err (ops.get b.entries now key) in
      record b {
        entries = ops.set_default b.entries now key (record entry { retry_at = now + entry.delay });
      }

  unfoldable pub clear : BackoffTracker C → Text → BackoffTracker C
  clear b key = record b { entries = ops.delete_key b.entries key }
