-- ===== src/Controllers/Plans.antt =====
-- The controllers of pkg/controllers/providers/instancetype: controller.go and capacity/controller.go.
use karpenter_provider_linod.Base.{ℕ, Bool, Option, none, some, List, if◌then◌else◌, Text}
use karpenter_provider_linod.Errors.{Err, wrap, wrap_both, is_node_claim_not_found}
use karpenter_provider_linod.Objects.{NodeClaim, RegionAvailability}
use karpenter_provider_linod.InstanceTypes.Types.{LinodeType, ClassSettings}
use karpenter_provider_linod.InstanceTypes.Store.{Setup, TypeProvider}
use karpenter_provider_linod.InstanceTypes.Refresh.{
  update_instance_types, update_instance_type_offerings, update_instance_type_capacity_from_node,
  Node,
}
use karpenter_provider_linod.Lke.State.{Result, ok, err}

-- The Linode API, and the cluster as the capacity controller asks it; what others do meanwhile is in the
-- answers.
pub record PlanClient : Type 1 where
  pub World : Type 0
  pub list_types : World → Result (List LinodeType) × World
  pub get_region_availability : Text → World → Result (List RegionAvailability) × World
  pub now : World → ℕ
  -- options.FromContext(ctx).ClusterRegion
  pub cluster_region : Text
  -- nodeutils.IsManaged, nodeutils.NodeClaimForNode, and GetLinodeNodeClass
  pub is_managed : Node → Bool
  pub node_claim_for_node : Node → World → Result NodeClaim × World
  pub get_class_settings : NodeClaim → World → Result ClassSettings × World

module _ (s : Setup) (k : PlanClient) where
  open k use {World}

  abbrev both_errors : Option Err → Option Err → Option Err
  both_errors none o = o
  both_errors (some x) none = some x
  both_errors (some x) (some y) = some (wrap_both x y)

  abbrev five_minutes : ℕ
  five_minutes = 300000000000

  abbrev refreshed : Option Err → TypeProvider s → World → Result ℕ × TypeProvider s × World
  refreshed none p w = (ok five_minutes, p, w)
  refreshed (some x) p w = (err (wrap x), p, w)

  -- Reconcile of the instance type controller: the two updates hold different locks and change different
  -- fields; here the instance types come first
  unfoldable pub reconcile_plans : TypeProvider s → World → Result ℕ × TypeProvider s × World
  unfolding update_instance_types update_instance_type_offerings
  reconcile_plans p w =
      let (types, v) = k.list_types w in
      let (types_error, q) = update_instance_types s (k.now v) types p in
      let (availability, u) = k.get_region_availability k.cluster_region v in
      let (offerings_error, last) = update_instance_type_offerings s (k.now u) availability q in
      refreshed (both_errors types_error offerings_error) last u

  abbrev observed :
      Result ClassSettings
      → Node
      → TypeProvider s
      → World
      → Result (Unit {0}) × TypeProvider s × World
  observed (err x) node p w = (err (wrap x), p, w)
  observed (ok node_class) node p w =
      (ok tt, update_instance_type_capacity_from_node s (k.now w) node node_class p, w)

  abbrev with_claim :
      Result NodeClaim → Node → TypeProvider s → World → Result (Unit {0}) × TypeProvider s × World
  with_claim (err x) node p w = (if is_node_claim_not_found x then ok tt else err (wrap x), p, w)
  with_claim (ok node_claim) node p w =
      observed (k.get_class_settings node_claim w).0 node p (k.get_class_settings node_claim w).1

  -- Reconcile of the capacity controller
  unfoldable pub reconcile_capacity :
      Node → TypeProvider s → World → Result (Unit {0}) × TypeProvider s × World
  unfolding update_instance_type_capacity_from_node is_node_claim_not_found
  reconcile_capacity node p w =
      let (answer, v) = k.node_claim_for_node node w in
      if k.is_managed node then with_claim answer node p v else (ok tt, p, w)
