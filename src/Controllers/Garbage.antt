-- ===== src/Controllers/Garbage.antt =====
-- The garbage collection controller of pkg/controllers/nodeclaim/garbagecollection/controller.go.
pub mod Safe
use karpenter_provider_linod.Controllers.State.{Run, ◌>>=◌, ◌>>◌, wrapping, is_kube_not_found}
use karpenter_provider_linod.Base.{
  ℕ, ◌+◌, ◌-◌, ◌%◌, ◌^◌, Bool, true, false, not, ◌&&◌, Option, none, some, List, [], ◌∷◌, ltb, leb,
  if◌then◌else◌, Text, text_eq, contains,
}
use karpenter_provider_linod.Errors.{Err, wrap_both, is_node_claim_not_found}
use karpenter_provider_linod.CloudProvider.Types.{CloudClaim}
use karpenter_provider_linod.Lke.State.{Result, ok, err}

-- corev1.Node: its name and provider ID
pub record NodeRef : Type 0 where
  pub name : Text
  pub provider_id : Text

-- The cloud provider and the Kubernetes client; what others do meanwhile is in the answers.
pub record Collector : Type 1 where
  pub World : Type 0
  pub list_cloud : World → Result (List CloudClaim) × World
  -- nodeclaimutils.ListManaged: the provider IDs, empty where there is none
  pub list_managed : World → Result (List Text) × World
  pub list_nodes : World → Result (List NodeRef) × World
  -- cloudProvider.Delete of the node claim with a provider ID, kubeClient.Delete of a node
  pub delete_claim : Text → World → Result (Unit {0}) × World
  pub delete_node : Text → World → Result (Unit {0}) × World
  -- time.Now()
  pub now : World → ℕ

-- a creation time that is not set is the zero time
abbrev pub is_old : ℕ → Option ℕ → Bool
is_old now none = true
is_old now (some created) = ltb 30000000000 (now - created)

abbrev pub is_terminating : CloudClaim → Bool
is_terminating claim = elim claim.deleted [ none ↦ false | some t ↦ true ]

-- lo.Filter of those that are not terminating
unfoldable pub not_terminating : List CloudClaim → List CloudClaim
not_terminating [] = []
not_terminating (claim ∷ claims) =
    let rest = not_terminating claims in if is_terminating claim then rest else claim ∷ rest

-- the provider IDs that are not empty
unfoldable pub provider_ids : List Text → List Text
unfolding text_eq
provider_ids [] = []
provider_ids (id ∷ ids) = let rest = provider_ids ids in if text_eq id [] then rest else id ∷ rest

unfoldable pub find_node : Text → List NodeRef → Option NodeRef
unfolding text_eq
find_node id [] = none
find_node id (n ∷ ns) =
    let later = find_node id ns in if text_eq n.provider_id id then some n else later

abbrev joined : Option Err → Option Err → Option Err
joined none o = o
joined (some x) none = some x
joined (some x) (some y) = some (wrap_both x y)

abbrev ignore_claim_missing : Err → Option Err
ignore_claim_missing x = if is_node_claim_not_found x then none else some x

abbrev error_of_node : Result (Unit {0}) → Option Err
error_of_node (ok u) = none
error_of_node (err x) = if is_kube_not_found x then none else some x

module _ (c : Collector) where
  open c use {World}

  abbrev pub delete_found : Option NodeRef → World → Option Err × World
  delete_found none w = (none, w)
  delete_found (some n) w = let (answer, v) = c.delete_node n.name w in (error_of_node answer, v)

  abbrev pub after_delete : Text → List NodeRef → Result (Unit {0}) → World → Option Err × World
  after_delete id nodes (ok u) w = delete_found (find_node id nodes) w
  after_delete id nodes (err x) w = (ignore_claim_missing x, w)

  -- garbageCollect
  unfoldable pub garbage_collect : Text → List NodeRef → World → Option Err × World
  unfolding find_node is_node_claim_not_found is_kube_not_found
  garbage_collect id nodes w =
      let (answer, v) = c.delete_claim id w in after_delete id nodes answer v

  -- the test of the worker; the subtraction is of the zero time if there is no creation time
  unfoldable pub is_garbage : List Text → World → CloudClaim → Bool
  unfolding contains
  is_garbage ids w claim = not (contains claim.provider_id ids) && is_old (c.now w) claim.created

  -- the workers, one after the other in the order of the list
  unfoldable pub collect_all :
      List Text → List NodeRef → List CloudClaim → World → Option Err × World
  unfolding is_garbage garbage_collect
  collect_all ids nodes [] w = (none, w)
  collect_all ids nodes (claim ∷ claims) w =
      let (error, v) = garbage_collect claim.provider_id nodes w in
      let (later, last) = collect_all ids nodes claims v in
      let (later_kept, last_kept) = collect_all ids nodes claims w in
      if is_garbage ids w claim then (joined error later, last) else (later_kept, last_kept)

  -- the end of Reconcile: when to run again, and the new successfulCount
  unfoldable pub requeue : ℕ → ℕ × ℕ
  requeue count =
      let next = (count + 1) % 2 ^ 64 in (if leb next 20 then 10000000000 else 120000000000, next)

  abbrev pub finish_collect : ℕ → Option Err × World → Result (ℕ × ℕ) × World
  finish_collect count (none, w) = (ok (requeue count), w)
  finish_collect count (some x, w) = (err x, w)

  -- Reconcile, for the successfulCount so far
  unfoldable pub reconcile_garbage : ℕ → Run World (ℕ × ℕ)
  unfolding not_terminating provider_ids collect_all requeue
  reconcile_garbage count = do
    claims ← wrapping c.list_cloud
    managed ← c.list_managed
    nodes ← c.list_nodes
    λ w. finish_collect count (collect_all (provider_ids managed) nodes (not_terminating claims) w)
