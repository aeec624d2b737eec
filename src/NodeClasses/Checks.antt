-- ===== src/NodeClasses/Checks.antt =====
-- The checks of pkg/controllers/nodeclass/validation.go, each on a node class and what it needs.
use karpenter_provider_linod.Base.{
  ℕ, Bool, true, false, not, ◌&&◌, Option, none, some, List, [], ◌∷◌, if◌then◌else◌, Text, codes,
  text_eq, Dict,
}
use karpenter_provider_linod.Errors.{wrap, message}
use karpenter_provider_linod.Objects.{Tier, standard, enterprise, unknown_tier}
use karpenter_provider_linod.Tags.{map_to_tag_list}
use karpenter_provider_linod.Tags.Valid.{validate_tags, validate_tag_lengths}
use karpenter_provider_linod.NodeClasses.Types.{
  ClassSpec, ConditionReason, LinodeNodeClass, tag_validation_failed, lke_version_unsupported,
  lke_version_mismatch, unsupported_instance_fields, unsupported_lke_fields, succeeded, failed,
}
use karpenter_provider_linod.Lke.State.{Result, ok, err}

-- options.FromContext(ctx).Mode
pub data Mode : Type 0 where
  lke_mode instance_mode other_mode : Mode

-- requeueAfterTime, lkeTierRequeueAfterTime
abbrev pub requeue_after_time : ℕ
requeue_after_time = 600000000000

abbrev pub lke_tier_requeue_after_time : ℕ
lke_tier_requeue_after_time = 60000000000

-- the end of Reconcile: how long to wait, or an error, and the node class with its condition
pub record Verified : Type 0 where
  pub answer : Result ℕ
  pub node_class : LinodeNodeClass

-- a check that passes, or that ends Reconcile
pub data Check : Type 0 where
  passes : Check
  stops : Verified → Check

abbrev pub set_false : ConditionReason → LinodeNodeClass → LinodeNodeClass
set_false reason node_class = record node_class { validation = failed reason }

abbrev pub set_true : LinodeNodeClass → LinodeNodeClass
set_true node_class = record node_class { validation = succeeded }

-- the condition is false, with a terminal error
abbrev pub rejects : ConditionReason → LinodeNodeClass → Check
rejects reason node_class =
    stops (record { answer = err (wrap message); node_class = set_false reason node_class })

abbrev pub is_nil : Option (List Text) → Bool
is_nil none = true
is_nil (some _) = false

-- validateTags
unfoldable pub validate_class_tags : LinodeNodeClass → Dict Text → Check
unfolding validate_tags validate_tag_lengths map_to_tag_list
validate_class_tags node_class generated =
    if is_nil (validate_tags node_class.meta.tags)
      && is_nil (validate_tag_lengths node_class.meta.tags)
      && is_nil (validate_tag_lengths (map_to_tag_list generated))
    then passes
    else rejects tag_validation_failed node_class

-- the names whose tests hold, in order
unfoldable pub names_set : List (Bool × Text) → List Text
names_set [] = []
names_set ((set, name) ∷ fields) = let rest = names_set fields in if set then name ∷ rest else rest

abbrev pub is_set : {A : Type 0} → Option A → Bool
is_set none = false
is_set (some _) = true

abbrev pub has_items : List Text → Bool
has_items [] = false
has_items (_ ∷ _) = true

-- the fields that only instances have, and whether they are set
abbrev pub instance_fields : ClassSpec → List (Bool × Text)
instance_fields spec =
    (has_items spec.authorized_keys, codes "authorizedKeys")
    ∷ (has_items spec.authorized_users, codes "authorizedUsers")
    ∷ (not (text_eq spec.image []), codes "image")
    ∷ (is_set spec.firewall_id, codes "firewallID")
    ∷ (spec.backups_enabled, codes "backupsEnabled")
    ∷ (spec.has_os_disk, codes "osDisk")
    ∷ (spec.has_data_disks, codes "dataDisks")
    ∷ (spec.has_configuration, codes "configuration")
    ∷ (is_set spec.placement_group, codes "placementGroup")
    ∷ (spec.has_vpc_id, codes "vpcID")
    ∷ (spec.has_ipv6_options, codes "ipv6Options")
    ∷ (is_set spec.swap_size, codes "swapSize")
    ∷ (not (text_eq spec.disk_encryption []), codes "diskEncryption")
    ∷ []

-- instanceOnlyFieldsSet
unfoldable pub instance_only_fields_set : ClassSpec → List Text
unfolding text_eq names_set
instance_only_fields_set spec = names_set (instance_fields spec)

-- validateLKEUnsupportedFields
unfoldable pub validate_lke_unsupported_fields : Mode → LinodeNodeClass → Check
unfolding instance_only_fields_set
validate_lke_unsupported_fields instance_mode node_class = passes
validate_lke_unsupported_fields other_mode node_class = passes
validate_lke_unsupported_fields lke_mode node_class =
    if has_items (instance_only_fields_set node_class.spec)
    then rejects unsupported_instance_fields node_class
    else passes

-- validateInstanceUnsupportedFields
unfoldable pub validate_instance_unsupported_fields : Mode → LinodeNodeClass → Check
validate_instance_unsupported_fields lke_mode node_class = passes
validate_instance_unsupported_fields other_mode node_class = passes
validate_instance_unsupported_fields instance_mode node_class =
    if is_set node_class.meta.lke_k8s_version
    then rejects unsupported_lke_fields node_class
    else passes

-- failLKEClusterTierValidation
abbrev pub fail_tier : ConditionReason → LinodeNodeClass → Check
fail_tier reason node_class =
    stops
      (record { answer = ok lke_tier_requeue_after_time; node_class = set_false reason node_class })

abbrev pub stops_with : LinodeNodeClass → Check
stops_with node_class = stops (record { answer = err (wrap message); node_class = node_class })

-- the answer about the cluster
unfoldable pub judge_tier : Text → LinodeNodeClass → Result (Tier × Text) → Check
unfolding text_eq
judge_tier desired node_class (err x) =
    stops (record { answer = err (wrap x); node_class = node_class })
judge_tier desired node_class (ok (enterprise, version)) =
    if text_eq version desired then passes else fail_tier lke_version_mismatch node_class
judge_tier desired node_class (ok (standard, version)) =
    fail_tier lke_version_unsupported node_class
judge_tier desired node_class (ok (unknown_tier tier, version)) = stops_with node_class
