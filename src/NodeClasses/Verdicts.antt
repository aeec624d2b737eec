-- ===== src/NodeClasses/Verdicts.antt =====
-- What the validation of a node class rejects.
pub mod Ends
use karpenter_provider_linod.Errors.{wrap, message}
use karpenter_provider_linod.Base.{
  ◌≡◌, refl, Bool, true, false, not, ◌&&◌, ◌||◌, List, [], if◌then◌else◌, Text, text_eq, Dict, ap,
  ◌∙◌, inl, inr, Bool-cases, arith, ◌∷◌,
}
use karpenter_provider_linod.Tags.{map_to_tag_list}
use karpenter_provider_linod.Tags.Valid.{validate_tags, validate_tag_lengths}
use karpenter_provider_linod.NodeClasses.Types.{
  ClassSpec, ConditionReason, LinodeNodeClass, tag_validation_failed, unsupported_instance_fields,
  unsupported_lke_fields,
}
use karpenter_provider_linod.Lke.State.{err}
use karpenter_provider_linod.NodeClasses.Checks.{
  set_false, rejects, is_nil, validate_class_tags, names_set, is_set, has_items, instance_fields,
  instance_only_fields_set, validate_lke_unsupported_fields, validate_instance_unsupported_fields,
  Mode, Verified, lke_mode, instance_mode, other_mode, passes,
}
use karpenter_provider_linod.NodeClasses.Validation.{
  validate_lke_cluster_tier, generated_tags, finish, or_stop, validate, Validator, ValidationState,
}

-- some field that only instances have is set
abbrev pub sets_instance_field : ClassSpec → Bool
sets_instance_field spec =
    has_items spec.authorized_keys
    || has_items spec.authorized_users
    || not (text_eq spec.image [])
    || is_set spec.firewall_id
    || spec.backups_enabled
    || spec.has_os_disk
    || spec.has_data_disks
    || spec.has_configuration
    || is_set spec.placement_group
    || spec.has_vpc_id
    || spec.has_ipv6_options
    || is_set spec.swap_size
    || not (text_eq spec.disk_encryption [])

-- the node class sets no field that its mode does not know
abbrev pub fits : Mode → LinodeNodeClass → Bool
fits lke_mode node_class = not (sets_instance_field node_class.spec)
fits instance_mode node_class = not (is_set node_class.meta.lke_k8s_version)
fits other_mode node_class = true

-- its own tags and the generated ones are valid
abbrev pub tags_are_valid : LinodeNodeClass → Dict Text → Bool
tags_are_valid node_class generated =
    is_nil (validate_tags node_class.meta.tags)
    && is_nil (validate_tag_lengths node_class.meta.tags)
    && is_nil (validate_tag_lengths (map_to_tag_list generated))

abbrev some_set : List (Bool × Text) → Bool
some_set [] = false
some_set ((set, name) ∷ fields) = set || some_set fields

has_items-names_set : (fields : List (Bool × Text)) → has_items (names_set fields) ≡ some_set fields
unfolding names_set
has_items-names_set [] = refl
has_items-names_set ((true, name) ∷ fields) = refl
has_items-names_set ((false, name) ∷ fields) = has_items-names_set fields

some_instance_field :
    (spec : ClassSpec) → some_set (instance_fields spec) ≡ sets_instance_field spec
some_instance_field spec = ground arith

has_items-instance_only_fields_set :
    (spec : ClassSpec) → has_items (instance_only_fields_set spec) ≡ sets_instance_field spec
unfolding instance_only_fields_set
has_items-instance_only_fields_set spec =
    has_items-names_set (instance_fields spec) ∙ some_instance_field spec

abbrev pub field_reason : Mode → ConditionReason
field_reason lke_mode = unsupported_instance_fields
field_reason instance_mode = unsupported_lke_fields
field_reason other_mode = unsupported_lke_fields

abbrev pub is_lke : Mode → Bool
is_lke lke_mode = true
is_lke instance_mode = false
is_lke other_mode = false

-- a rejected node class, with a terminal error
abbrev pub rejected : ConditionReason → LinodeNodeClass → Verified
rejected reason node_class = record {
  answer = err (wrap message);
  node_class = set_false reason node_class;
}

validate_class_tags-fits :
    (node_class : LinodeNodeClass) (generated : Dict Text)
    → validate_class_tags node_class generated ≡ (
        if tags_are_valid node_class generated
        then passes
        else rejects tag_validation_failed node_class)
unfolding validate_class_tags
validate_class_tags-fits node_class generated = refl

module _ (v : Validator) where
  fields :
      (node_class : LinodeNodeClass) (mode : Mode)
      (rest : ValidationState v → Verified × ValidationState v) (s : ValidationState v)
      → or_stop v
          (validate_lke_unsupported_fields mode node_class)
          (or_stop v (validate_instance_unsupported_fields mode node_class) rest)
          s
        ≡ (if fits mode node_class then rest s else (rejected (field_reason mode) node_class, s))
  unfolding validate_lke_unsupported_fields validate_instance_unsupported_fields
  fields node_class lke_mode rest s =
      ap
        (λ b.
          or_stop v (if b then rejects unsupported_instance_fields node_class else passes)
            (or_stop v passes rest) s)
        (has_items-instance_only_fields_set node_class.spec)
      ∙ stops_or (sets_instance_field node_class.spec)
    where
      stops_or :
          (b : Bool)
          → or_stop v
              (if b then rejects unsupported_instance_fields node_class else passes)
              (or_stop v passes rest)
              s
            ≡ (if not b then rest s else (rejected unsupported_instance_fields node_class, s))
      stops_or true = refl
      stops_or false = refl
  fields node_class instance_mode rest s = stops_or (is_set node_class.meta.lke_k8s_version)
    where
      stops_or :
          (b : Bool)
          → or_stop v (if b then rejects unsupported_lke_fields node_class else passes) rest s
            ≡ (if not b then rest s else (rejected unsupported_lke_fields node_class, s))
      stops_or true = refl
      stops_or false = refl
  fields node_class other_mode rest s = refl

  pub judged :
      (node_class : LinodeNodeClass) (s : ValidationState v)
      → validate v node_class s ≡ (
          if tags_are_valid node_class (generated_tags v node_class)
          then (if fits v.mode node_class
              then finish v node_class
                  (generated_tags v node_class)
                  (validate_lke_cluster_tier v node_class s)
              else (rejected (field_reason v.mode) node_class, s))
          else (rejected tag_validation_failed node_class, s))
  unfolding validate
  judged node_class s =
      ap
        (λ check.
          or_stop v check
            (or_stop v (validate_lke_unsupported_fields v.mode node_class) (
              or_stop v (validate_instance_unsupported_fields v.mode node_class) (λ t.
                finish v node_class (generated_tags v node_class)
                  (validate_lke_cluster_tier v node_class t))))
            s)
        (validate_class_tags-fits node_class (generated_tags v node_class))
      ∙ elim (Bool-cases (tags_are_valid node_class (generated_tags v node_class))) [
        | inl valid ↦ rw valid (fields node_class v.mode _ s)
        | inr invalid ↦ rw invalid refl
      ]
