-- ===== src/NodeClasses/Finalizer.antt =====
-- The node class controller of pkg/controllers/nodeclass/controller.go.
use karpenter_provider_linod.Controllers.State.{is_kube_not_found}
use karpenter_provider_linod.Base.{
  ℕ, Bool, true, false, Option, none, some, List, [], ◌∷◌, if◌then◌else◌, Text,
}
use karpenter_provider_linod.Errors.{Err, wrap, errors_as, as_kube, KubeReason, conflict}
use karpenter_provider_linod.NodeClasses.Types.{LinodeNodeClass}
use karpenter_provider_linod.NodeClasses.Validation.{
  validate, clear_cache_entries, Validator, ValidationState,
}
use karpenter_provider_linod.Lke.State.{Result, ok, err}

-- The Kubernetes client. What others do meanwhile is in the answers.
pub record ClassClient (v : Validator) : Type 0 where
  -- the names of the node claims that refer to a node class
  pub list_node_claims : Text → v.World → Result (List Text) × v.World
  -- Patch of the finalizers, and of the status, against what was stored
  pub patch : LinodeNodeClass → v.World → Result (Unit {0}) × v.World
  pub patch_status : LinodeNodeClass → v.World → Result (Unit {0}) × v.World
  -- !equality.Semantic.DeepEqual(stored, nodeClass)
  pub differs : LinodeNodeClass → LinodeNodeClass → Bool

abbrev kube_conflict : Option KubeReason → Bool
kube_conflict (some conflict) = true
kube_conflict _ = false

-- apierrors.IsConflict
unfoldable pub is_conflict : Err → Bool
unfolding errors_as
is_conflict x = kube_conflict (errors_as as_kube x)

abbrev pub second : ℕ
second = 1000000000

-- requeue after a second at a conflict
abbrev conflict_or : Err → Result ℕ → Result ℕ
conflict_or x r = if is_conflict x then ok second else r

-- client.IgnoreNotFound(err), with nothing to wait for
abbrev ignore_not_found : Err → Result ℕ
ignore_not_found x = if is_kube_not_found x then ok 0 else err x

-- result.Min and the errors of Reconcile
abbrev with_error : Option Err → Result ℕ → Result ℕ
with_error none r = r
with_error (some x) r = err x

abbrev first_error : Result ℕ → Option Err → Option Err
first_error (ok n) o = o
first_error (err x) o = some x

module _ (v : Validator) (k : ClassClient v) where
  -- what Reconcile returns, with the node class and the state after it
  pub record Ended : Type 0 where
    pub answer : Result ℕ
    pub node_class : LinodeNodeClass
    pub state : ValidationState v

  abbrev pub cleared : Result ℕ → LinodeNodeClass → ValidationState v → Ended
  cleared answer node_class s = record {
    answer = answer;
    node_class = node_class;
    state = record s { cache = clear_cache_entries v node_class s.cache };
  }

  abbrev pub in_state : Result ℕ → LinodeNodeClass → ValidationState v → v.World → Ended
  in_state answer node_class s w = record {
    answer = answer;
    node_class = node_class;
    state = record s { world = w };
  }

  abbrev pub without_finalizer : LinodeNodeClass → LinodeNodeClass
  without_finalizer node_class = record node_class { has_finalizer = false }

  -- the answer to the patch that removes the finalizer
  unfoldable pub removed : LinodeNodeClass → Result (Unit {0}) → ValidationState v → Ended
  unfolding is_conflict is_kube_not_found clear_cache_entries
  removed node_class (ok u) s = cleared (ok 0) node_class s
  removed node_class (err x) s = record {
    answer = conflict_or x (ignore_not_found (wrap x));
    node_class = node_class;
    state = s;
  }

  unfoldable pub remove_finalizer : LinodeNodeClass → ValidationState v → Ended
  unfolding removed
  remove_finalizer node_class s =
      let (answer, w) = k.patch (without_finalizer node_class) s.world in
      if node_class.has_finalizer
      then removed (without_finalizer node_class) answer (record s { world = w })
      else cleared (ok 0) (without_finalizer node_class) s

  abbrev pub ten_minutes : ℕ
  ten_minutes = 600000000000

  abbrev pub finalize_unused : LinodeNodeClass → Result (List Text) → ValidationState v → Ended
  finalize_unused node_class (err x) s = record {
    answer = err (wrap x);
    node_class = node_class;
    state = s;
  }
  finalize_unused node_class (ok []) s = remove_finalizer node_class s
  finalize_unused node_class (ok (_ ∷ _)) s = record {
    answer = ok ten_minutes;
    node_class = node_class;
    state = s;
  }

  -- finalize
  unfoldable pub finalize : LinodeNodeClass → ValidationState v → Ended
  unfolding remove_finalizer
  finalize node_class s =
      let (answer, w) = k.list_node_claims node_class.meta.name s.world in
      finalize_unused node_class answer (record s { world = w })

  -- the answer to the patch of the status
  abbrev status_patched : Result ℕ → Result (Unit {0}) → Result ℕ
  status_patched answer (ok u) = answer
  status_patched answer (err x) =
      conflict_or x (with_error (first_error answer (first_error (ignore_not_found x) none)) answer)

  -- the validation, and the patch of the status that it changed
  unfoldable pub reconcile_status : LinodeNodeClass → ValidationState v → Ended
  unfolding validate is_conflict is_kube_not_found
  reconcile_status node_class s =
      let (verified, t) = validate v node_class s in
      let (patched, w) = k.patch_status verified.node_class t.world in
      if k.differs node_class verified.node_class
      then in_state (status_patched verified.answer patched) verified.node_class t w
      else record { answer = verified.answer; node_class = verified.node_class; state = t }

  abbrev with_finalizer : LinodeNodeClass → LinodeNodeClass
  with_finalizer node_class = record node_class { has_finalizer = true }

  -- the answer to the patch that adds the finalizer; a node class that is gone is no error
  abbrev added : LinodeNodeClass → Result (Unit {0}) → ValidationState v → Ended
  added node_class (ok u) s = reconcile_status node_class s
  added node_class (err x) s =
      if is_kube_not_found x
      then reconcile_status node_class s
      else record { answer = conflict_or x (err x); node_class = node_class; state = s }

  -- Reconcile
  unfoldable pub reconcile_class : LinodeNodeClass → ValidationState v → Ended
  unfolding finalize reconcile_status is_conflict is_kube_not_found
  reconcile_class node_class s =
      let (answer, w) = k.patch (with_finalizer node_class) s.world in
      if node_class.meta.deleted
      then finalize node_class s
      else if node_class.has_finalizer
      then reconcile_status node_class s
      else added (with_finalizer node_class) answer (record s { world = w })
