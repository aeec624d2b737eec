-- ===== src/Lke/Delete/Again.antt =====
-- A Delete after one that failed.
use karpenter_provider_linod.Base.{
  ℕ, ◌+◌, ◌≤◌, ◌<◌, ◌≡◌, some, Text, refl, ap, ◌∙◌, true, false, Option, none, arith,
}
use karpenter_provider_linod.Errors.{Err, wrap, is_node_claim_not_found, is_retryable_error}
use karpenter_provider_linod.Cache.{CacheLaws}
use karpenter_provider_linod.Backoff.{
  backoff_ttl, check, record_failure, BackoffTracker, next_entry, BackoffEntry,
}
use karpenter_provider_linod.Lke.State.{Env, Provider, State, fail}
use karpenter_provider_linod.Lke.Delete.{
  delete_node, record_delete_result, unless_failed_recently, delete_by_id,
}

-- how long the backoff that a failure of the instance leaves holds
unfoldable pub hold : (e : Env) → BackoffTracker e.BackoffCache → ℕ → Text → Err → ℕ
hold e b now id x = (next_entry b.base b.max_delay x (e.backoff_ops.get b.entries now id)).delay

module _ (e : Env) (p : Provider) (laws : CacheLaws e.backoff_ops backoff_ttl) where
  next_cause :
      (base max_delay : ℕ) (x : Err) (o : Option BackoffEntry)
      → (next_entry base max_delay x o).cause ≡ x
  next_cause base max_delay x none = refl
  next_cause base max_delay x (some prev) = refl

  check-record_failure :
      (b : BackoffTracker e.BackoffCache) (now later : ℕ) (id : Text) (x : Err)
      → now ≤ later
      → later < now + hold e b now id x
      → later < now + backoff_ttl
      → check e.backoff_ops (record_failure e.backoff_ops b now id x) later id ≡ some (wrap x)
  unfolding check record_failure hold
  check-record_failure b now later id x le held kept =
      rw (laws.get-set_self b.entries now later id _ le kept)
        (rw (next_cause b.base b.max_delay x (e.backoff_ops.get b.entries now id)) (ground arith))

  delete_by_id-failed :
      (id : Text) (s : State e) (x : Err)
      → check e.backoff_ops s.delete_backoff (e.now s.world) id ≡ none
      → (delete_node e p id s).0 ≡ fail x
      → is_node_claim_not_found x ≡ false
      → is_retryable_error x ≡ true
      → (delete_by_id e p id s).1.delete_backoff
        ≡ record_failure e.backoff_ops
            (delete_node e p id s).1.delete_backoff
            (e.now (delete_node e p id s).1.world)
            id
            x
  unfolding delete_by_id unless_failed_recently record_delete_result
  delete_by_id-failed id s x free failed there again = rw (free, failed, there, again) refl

  -- Take a Delete that the backoff let through and that failed with a retryable error, other than
  -- that the instance is gone. Given the laws of the cache, a later Delete of the same instance,
  -- with the backoff as that one left it, fails with the same error as its cause and changes nothing
  -- of the state, the events included, as long as the delay of the failure and the hour of the cache
  -- last.
  pub delete_by_id-again :
      (id : Text) (s later : State e) (x : Err)
      → check e.backoff_ops s.delete_backoff (e.now s.world) id ≡ none
      → (delete_node e p id s).0 ≡ fail x
      → is_node_claim_not_found x ≡ false
      → is_retryable_error x ≡ true
      → later.delete_backoff ≡ (delete_by_id e p id s).1.delete_backoff
      → e.now (delete_node e p id s).1.world ≤ e.now later.world
      → e.now later.world
        < e.now (delete_node e p id s).1.world
          + hold e
              (delete_node e p id s).1.delete_backoff
              (e.now (delete_node e p id s).1.world)
              id
              x
      → e.now later.world < e.now (delete_node e p id s).1.world + backoff_ttl
      → delete_by_id e p id later ≡ (fail (wrap x), later)
  delete_by_id-again id s later x free failed there again kept le held fresh =
      let refused =
        ap (λ b. check e.backoff_ops b (e.now later.world) id)
          (kept ∙ delete_by_id-failed id s x free failed there again)
        ∙ check-record_failure _ _ _ id x le held fresh in
      unfold delete_by_id in
      ap (λ o. unless_failed_recently e p id o later) refused
      ∙ unfold unless_failed_recently in refl
