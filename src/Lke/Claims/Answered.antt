-- ===== src/Lke/Claims/Answered.antt =====
-- What the API answered before claimInstance returns an instance.
use karpenter_provider_linod.Base.{
  ◌≡◌, refl, subst, inl, inr, Bool, true, false, arith, ℕ, zero, suc, ◌||◌, Option, none, some,
  List, [], ◌∷◌, ltb, Bool-cases, Text, contains, ℤ, ap, ◌∙◌, ◌++◌,
}
use karpenter_provider_linod.Errors.{Err, is_not_found, is_retryable_error}
use karpenter_provider_linod.Lke.State.{
  Result-cases, Exec, ◌>>◌, Env, Event, State, done, sleep_for, Result, Provider, ok, err,
  update_instance, get_instance, called, succeeded,
}
use karpenter_provider_linod.Tags.Claim.{node_claim_tag}
use karpenter_provider_linod.Objects.{NodeClaim, NodeClass, LinodeInstance, NodePool}
use karpenter_provider_linod.Lke.Claims.{
  judge_verified, verify_round, verify_loop, verify_tags_applied, claim_instance, claim_tags,
}
use karpenter_provider_linod.Lke.Claims.Verified.{done_inj}

-- After the events `since` and any later ones, the last step of the run asked the API for the instance,
-- and the API answered it with the tag.
unfoldable pub Confirmed : {e : Env} → ℤ → Text → List Event → LinodeInstance → State e → Type 0
Confirmed {e = e} id tag since i t =
    (u : State e) × (more : List Event) × (u.events ≡ more ++ since)
    × ((e.api.get_instance id u.world).0 ≡ ok i)
    × (t ≡ record u {
      world = (e.api.get_instance id u.world).1;
      events = called (get_instance id) true ∷ u.events;
    })
    × (contains tag i.tags ≡ true)

module _ (e : Env) (p : Provider) (id : ℤ) (expected : Text) (since : List Event) where
  Since : State e → Type 0
  Since s = (more : List Event) × (s.events ≡ more ++ since)

  -- what the run returns from a later state is confirmed
  abbrev Confirms : Exec e LinodeInstance → Type 0
  Confirms m =
      (s : State e)
      → Since s
      → (a : LinodeInstance) → (m s).0 ≡ done a
      → Confirmed id expected since a (m s).1

  retry-Confirms :
      (again : Exec e LinodeInstance)
      → Confirms again
      → Confirms (sleep_for e p.retry_delay >> again)
  unfolding sleep_for Since
  retry-Confirms again h s since_s = h _ since_s

  -- the state after GetInstance
  abbrev asked_from : State e → Bool → State e
  asked_from s success = record s {
    world = (e.api.get_instance id s.world).1;
    events = called (get_instance id) success ∷ s.events;
  }

  -- the answer of a round, from the state before it
  answered-Confirmed :
      (again : Exec e LinodeInstance) (s : State e) (a : LinodeInstance) (r : Result LinodeInstance)
      → Confirms again
      → Since s
      → (e.api.get_instance id s.world).0 ≡ r
      → (judge_verified e p expected r again (asked_from s (succeeded r))).0 ≡ done a
      → Confirmed id expected since a
          (judge_verified e p expected r again (asked_from s (succeeded r))).1
  unfolding judge_verified Since
  answered-Confirmed again s a (err x) h (more, later) asked k =
      elim (Bool-cases (is_retryable_error x || is_not_found x)) [
        | inl retried ↦ rw retried (
            retry-Confirms again h (asked_from s false)
              (
                called (get_instance id) false ∷ more,
                ap (λ es. called (get_instance id) false ∷ es) later,
              )
              a (rw retried at k))
        | inr final ↦ absurd (ground (arith, final, k))
      ]
  answered-Confirmed again s a (ok i) h (more, later) asked k =
      elim (Bool-cases (contains expected i.tags)) [
        | inl there ↦
            let same = done_inj i a (rw there at k) in
            rw there (
              unfold Confirmed in
              (
                s,
                more,
                later,
                asked ∙ ap ok same,
                refl,
                subst (λ j. contains expected j.tags ≡ true) same there,
              ))
        | inr absent ↦ rw absent (
            retry-Confirms again h (asked_from s true)
              (
                called (get_instance id) true ∷ more,
                ap (λ es. called (get_instance id) true ∷ es) later,
              )
              a (rw absent at k))
      ]

  verify_round-Confirms :
      (again : Exec e LinodeInstance) (o : Option Err)
      → Confirms again
      → Confirms (verify_round e p id expected again o)
  unfolding verify_round
  verify_round-Confirms again (some x) h s later a k = absurd (ground (arith, k))
  verify_round-Confirms again none h s later a k =
      elim (Result-cases (e.api.get_instance id s.world).0) [
        | inl (i, answered) ↦
            rw answered (answered-Confirmed again s a (ok i) h later answered (rw answered at k))
        | inr (x, failed) ↦
            rw failed (answered-Confirmed again s a (err x) h later failed (rw failed at k))
      ]

  verify_loop-Confirms : (fuel deadline : ℕ) → Confirms (verify_loop e p fuel deadline id expected)
  unfolding verify_loop
  verify_loop-Confirms zero deadline s later a k = absurd (ground (arith, k))
  verify_loop-Confirms (suc fuel) deadline s later a k =
      elim (Bool-cases (ltb (e.now s.world) deadline)) [
        | inl early ↦ rw early (
            verify_round-Confirms (verify_loop e p fuel deadline id expected) (e.ctx_err s.world)
              (verify_loop-Confirms fuel deadline) s later a (rw early at k))
        | inr late ↦ absurd (ground (arith, late, k))
      ]

module _ (e : Env) (p : Provider) where
  -- When claimInstance returns an instance, UpdateInstance had succeeded with the tags of the claim, and
  -- after it the last request of the call was GetInstance, whose answer is the instance that is
  -- returned, with the claim's tag.
  pub claim_instance-tagged :
      (fuel : ℕ) (i : LinodeInstance) (claim : NodeClaim) (c : NodeClass) (pool : NodePool)
      (s : State e) (claimed : LinodeInstance)
      → (claim_instance e p fuel i claim c pool s).0 ≡ done claimed
      → ((written : LinodeInstance) × ((e.api.update_instance i.id
              (claim_tags i.tags pool.tags c.tags claim.name)
              s.world).0
            ≡ ok written))
        × Confirmed i.id
            (node_claim_tag claim.name)
            (called (update_instance i.id (claim_tags i.tags pool.tags c.tags claim.name)) true
              ∷ s.events)
            claimed
            (claim_instance e p fuel i claim c pool s).1
  unfolding claim_instance verify_tags_applied Since
  claim_instance-tagged fuel i claim c pool s claimed k =
      elim (Result-cases
        (e.api.update_instance i.id (claim_tags i.tags pool.tags c.tags claim.name) s.world).0) [
          | inl (written, answered) ↦ (
            (written, answered),
            rw answered (
                verify_loop-Confirms e p i.id (node_claim_tag claim.name) _ fuel _ _ ([], refl)
                  claimed (rw answered at k)),
          )
          | inr (x, failed) ↦ absurd (ground (arith, failed, k))
        ]
