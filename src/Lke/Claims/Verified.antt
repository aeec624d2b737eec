-- ===== src/Lke/Claims/Verified.antt =====
-- What the search for an instance and its claim return.
use karpenter_provider_linod.Base.{
  ◌≡◌, refl, subst, inl, inr, Bool, true, false, arith, if◌then◌else◌, Option, none, some, List, [],
  ◌∷◌, Text, pos, int_eq, ap,
}
use karpenter_provider_linod.Errors.{is_not_found}
use karpenter_provider_linod.Lke.State.{
  Outcome-cases, Exec, ◌>>=◌, Env, State, done, attempt, wrapped, request, Result, Provider, ok,
  err,
}
use karpenter_provider_linod.Objects.{LinodeInstance, PoolNode, NodePool}
use karpenter_provider_linod.Lke.Claims.{
  is_claimed, first_unclaimed, judge_node, scan_nodes, find_claimable_instance,
  find_claimable_instance_standard, pick_unclaimed, find_claimable_instance_enterprise,
}
use karpenter_provider_linod.Lke.Pools.{is_enterprise}

-- every result that the run returns satisfies Q
abbrev Returns : {e : Env} {A : Type 0} → (A → Type 0) → Exec e A → Type 0
Returns {e = e} {A = A} Q m = (s : State e) (a : A) → (m s).0 ≡ done a → Q a

module _ {e : Env} {A B : Type 0} (Q : B → Type 0) where
  Returns-bind :
      (m : Exec e A) (f : A → Exec e B) → ((a : A) → Returns Q (f a)) → Returns Q (m >>= f)
  Returns-bind m f hf s b h = elim (Outcome-cases (m s).0) [
    | inl (a, eq) ↦ hf a (m s).1 b (rw eq at h)
    | inr (inl (x, eq)) ↦ absurd (ground arith)
    | inr (inr eq) ↦ absurd (ground arith)
  ]

module _ {e : Env} {A : Type 0} (Q : A → Type 0) where
  Returns-if :
      (b : Bool) (m k : Exec e A)
      → (b ≡ true → Returns Q m)
      → (b ≡ false → Returns Q k)
      → Returns Q (if b then m else k)
  Returns-if true m k hm hk = hm refl
  Returns-if false m k hm hk = hk refl

pub done_inj : {A : Type 0} (a b : A) → done a ≡ done b → a ≡ b
done_inj a b h = ground arith

module _ (e : Env) (p : Provider) where
  -- the instance has no claim tag
  Unclaimed : LinodeInstance → Type 0
  Unclaimed i = is_claimed i.tags ≡ false

  judge_node-Unclaimed :
      (a : Result LinodeInstance) (rest : Exec e LinodeInstance)
      → Returns Unclaimed rest
      → Returns Unclaimed (judge_node e p a rest)
  unfolding judge_node
  judge_node-Unclaimed (err x) rest h =
      Returns-if Unclaimed (is_not_found x) rest _ (λ _. h) (λ _ s b k. absurd (ground arith))
  judge_node-Unclaimed (ok i) rest h =
      Returns-if Unclaimed (is_claimed i.tags) rest _ (λ _. h)
        (λ free s b k. subst Unclaimed (done_inj i b k) (unfold Unclaimed in free))

  scan_nodes-Unclaimed :
      (provisioning : Bool) (nodes : List PoolNode)
      → Returns Unclaimed (scan_nodes e p provisioning nodes)
  unfolding scan_nodes
  scan_nodes-Unclaimed provisioning [] = λ s b k. absurd (ground arith)
  scan_nodes-Unclaimed provisioning (node ∷ nodes) =
      let waiting = scan_nodes-Unclaimed true nodes in
      let rest = scan_nodes-Unclaimed provisioning nodes in
      Returns-if Unclaimed (int_eq node.instance_id (pos 0)) _ _ (λ _. waiting)
        (λ _. Returns-bind Unclaimed (attempt (request _ _)) _ (λ a. judge_node-Unclaimed a _ rest))

  first_unclaimed-Unclaimed :
      (type : Text) (is : List LinodeInstance) (i : LinodeInstance)
      → first_unclaimed type is ≡ some i
      → Unclaimed i
  unfolding first_unclaimed Unclaimed
  first_unclaimed-Unclaimed type [] i h = absurd (ground arith)
  first_unclaimed-Unclaimed type (j ∷ is) i h = ground (arith, first_unclaimed-Unclaimed type is i)

  pick-some :
      (o : Option LinodeInstance) (s : State e) (i : LinodeInstance)
      → (pick_unclaimed e p o s).0 ≡ done i
      → o ≡ some i
  unfolding pick_unclaimed
  pick-some none s i h = absurd (ground arith)
  pick-some (some j) s i h = ap some (done_inj j i h)

  -- findClaimableInstance returns no instance that has a NodeClaim tag, in either tier.
  pub find_claimable_instance-unclaimed :
      (pool : NodePool) (s : State e) (i : LinodeInstance)
      → (find_claimable_instance e p pool s).0 ≡ done i
      → is_claimed i.tags ≡ false
  unfolding find_claimable_instance find_claimable_instance_standard
      find_claimable_instance_enterprise Unclaimed
  find_claimable_instance-unclaimed pool =
      Returns-if Unclaimed (is_enterprise p.cluster_tier) _ _
        (λ _. Returns-bind Unclaimed (wrapped (request _ _)) _ (λ is s i h.
          first_unclaimed-Unclaimed pool.type is i
            (pick-some (first_unclaimed pool.type is) s i h)))
        (λ _.
          Returns-bind Unclaimed (wrapped (request _ _)) _
            (λ fresh. scan_nodes-Unclaimed false fresh.linodes))
