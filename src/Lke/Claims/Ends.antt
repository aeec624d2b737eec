-- ===== src/Lke/Claims/Ends.antt =====
-- How many rounds the loop of verifyTagsApplied takes.
use native.Mathlib.Nat.{suc-mul}
use karpenter_provider_linod.Lke.Claims.{
  judge_verified, verify_round, verify_loop, verify_tags_applied,
}
use karpenter_provider_linod.Base.{
  ℕ, zero, suc, ◌+◌, ◌*◌, ◌≤◌, ◌≢◌, inl, inr, ◌||◌, Option, none, some, arith, Bool-cases, Text,
  contains, ℤ, ◌<◌, subst, ltb, ltb→lt,
}
use karpenter_provider_linod.Errors.{is_not_found, is_retryable_error, Err}
use karpenter_provider_linod.Tags.Claim.{node_claim_tag}
use karpenter_provider_linod.Objects.{LinodeInstance}
use karpenter_provider_linod.Lke.State.{
  Result-cases, Exec, sleep_for, Result, Env, Provider, State, ok, err, running,
}

-- What is relied on of the clock here: a request does not turn it back, and a sleep takes its time.
pub record ClockLaws (e : Env) : Type 0 where
  pub get_instance-now : (id : ℤ) (w : e.World) → e.now w ≤ e.now (e.api.get_instance id w).1
  pub sleep-now : (d : ℕ) (w : e.World) → e.now w + d ≤ e.now (e.sleep d w)

-- the run returns or fails
abbrev Ends : {e : Env} {A : Type 0} → Exec e A → State e → Type 0
Ends m s = (m s).0 ≢ running

clock_step :
    (fuel delay deadline now later : ℕ)
    → deadline ≤ now + suc fuel * delay
    → now + delay ≤ later
    → deadline ≤ later + fuel * delay
clock_step fuel delay deadline now later h le =
    omega (arith, subst (λ m. deadline ≤ now + m) (suc-mul fuel delay) h, le)

module _ (e : Env) (p : Provider) (laws : ClockLaws e) where
  -- `again` ends wherever the clock has gone on by the delay
  judge_verified-Ends :
      (expected : Text) (a : Result LinodeInstance) (again : Exec e LinodeInstance) (s : State e)
      → ((s' : State e) → e.now s.world + p.retry_delay ≤ e.now s'.world → Ends again s')
      → Ends (judge_verified e p expected a again) s
  unfolding judge_verified sleep_for
  judge_verified-Ends expected (err x) again s ih h =
      elim (Bool-cases (is_retryable_error x || is_not_found x)) [
        | inl retried ↦ ih _ (laws.sleep-now p.retry_delay s.world) (rw retried at h)
        | inr final ↦ absurd (ground arith)
      ]
  judge_verified-Ends expected (ok i) again s ih h = elim (Bool-cases (contains expected i.tags)) [
    | inl there ↦ absurd (ground arith)
    | inr absent ↦ ih _ (laws.sleep-now p.retry_delay s.world) (rw absent at h)
  ]

  verify_round-Ends :
      (id : ℤ) (expected : Text) (again : Exec e LinodeInstance) (o : Option Err) (s : State e)
      → ((s' : State e) → e.now s.world + p.retry_delay ≤ e.now s'.world → Ends again s')
      → Ends (verify_round e p id expected again o) s
  unfolding verify_round
  verify_round-Ends id expected again (some x) s ih = λ h. absurd (ground arith)
  verify_round-Ends id expected again none s ih =
      let later = laws.get_instance-now id s.world in
      elim (Result-cases (e.api.get_instance id s.world).0) [
        | inl (i, answered) ↦ rw answered (
            judge_verified-Ends expected (ok i) again _ (λ s' le. ih s' (omega (arith, later, le))))
        | inr (x, failed) ↦ rw failed (
            judge_verified-Ends expected (err x) again _
              (λ s' le. ih s' (omega (arith, later, le))))
      ]

  -- one round, given that the rounds after it end
  verify_loop-Ends_step :
      (fuel deadline : ℕ) (id : ℤ) (expected : Text) (s : State e)
      → (e.now s.world < deadline
          → (s' : State e) → e.now s.world + p.retry_delay ≤ e.now s'.world
          → Ends (verify_loop e p fuel deadline id expected) s')
      → Ends (verify_loop e p (suc fuel) deadline id expected) s
  unfolding verify_loop
  verify_loop-Ends_step fuel deadline id expected s ih =
      elim (Bool-cases (ltb (e.now s.world) deadline)) [
        | inl early ↦ rw early (
            verify_round-Ends id expected (verify_loop e p fuel deadline id expected)
              (e.ctx_err s.world) s (ih (ltb→lt _ _ early)))
        | inr late ↦ rw late (λ h. ground arith)
      ]

  verify_loop-Ends :
      (fuel deadline : ℕ) (id : ℤ) (expected : Text) (s : State e)
      → deadline ≤ e.now s.world + fuel * p.retry_delay
      → Ends (verify_loop e p (suc fuel) deadline id expected) s
  verify_loop-Ends zero deadline id expected s enough =
      verify_loop-Ends_step zero deadline id expected s
        (λ early s' le. absurd (omega (arith, enough, early)))
  verify_loop-Ends (suc fuel) deadline id expected s enough =
      verify_loop-Ends_step (suc fuel) deadline id expected s (λ early s' le.
        verify_loop-Ends fuel deadline id expected s'
          (clock_step fuel p.retry_delay deadline _ _ enough le))

  -- Given the laws of the clock, verifyTagsApplied returns or fails, and does not use up its rounds,
  -- when these are more than its timeout takes of its delays.
  pub verify_tags_applied-ends :
      (fuel : ℕ) (id : ℤ) (name : Text) (s : State e)
      → p.tag_verification_timeout ≤ fuel * p.retry_delay
      → (verify_tags_applied e p (suc fuel) id name s).0 ≢ running
  unfolding verify_tags_applied
  verify_tags_applied-ends fuel id name s enough =
      verify_loop-Ends fuel _ id (node_claim_tag name) s (omega (arith, enough))
