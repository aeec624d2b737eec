-- ===== src/Selection.antt =====
-- The choice of an instance type: FilterInstanceTypes and CheapestInstanceType of pkg/utils/utils.go
-- and the filter of pkg/providers/instance/filter/filter.go.
pub mod Cheapest
use karpenter_provider_linod.Base.{
  ℕ, Bool, true, false, not, Option, none, some, List, [], ◌∷◌, ◌==◌, if◌then◌else◌, Text,
}
use karpenter_provider_linod.Objects.{NodeClaim}

-- What the program asks of Karpenter's instance types, against the requirements and requests of a
-- node claim. Prices are floating-point numbers: only their order is used.
pub record Catalog : Type 1 where
  pub InstanceType : Type 0
  pub name : InstanceType → Text
  -- requirements.IsCompatible(i.Requirements, AllowUndefinedWellKnownLabels)
  pub is_compatible : NodeClaim → InstanceType → Bool
  -- resources.Fits(requests, i.Allocatable())
  pub fits : NodeClaim → InstanceType → Bool
  -- len(i.Offerings.Compatible(requirements).Available())
  pub available : NodeClaim → InstanceType → ℕ
  -- i.Offerings.Cheapest().Price < j.Offerings.Cheapest().Price
  pub cheaper : InstanceType → InstanceType → Bool

module _ (c : Catalog) where
  open c use {InstanceType}

  -- FilterReject's test
  unfoldable pub keeps : NodeClaim → InstanceType → Bool
  keeps claim i =
      if not (c.is_compatible claim i)
      then false
      else if not (c.fits claim i)
      then false
      else if c.available claim i == 0
      then false
      else true

  -- the instance types kept, the first result of FilterReject
  unfoldable pub filter_reject : NodeClaim → List InstanceType → List InstanceType
  unfolding keeps
  filter_reject claim [] = []
  filter_reject claim (i ∷ is) =
      let rest = filter_reject claim is in if keeps claim i then i ∷ rest else rest

  -- an error, or a list that is not empty
  abbrev some_remaining : List InstanceType → Option (List InstanceType)
  some_remaining [] = none
  some_remaining (i ∷ is) = some (i ∷ is)

  -- FilterInstanceTypes; `none` is the insufficient capacity error
  unfoldable pub filter_instance_types : NodeClaim → List InstanceType → Option (List InstanceType)
  unfolding filter_reject
  filter_instance_types claim is = some_remaining (filter_reject claim is)

  -- the loop of CheapestInstanceType
  unfoldable pub cheapest_from : InstanceType → List InstanceType → InstanceType
  cheapest_from cheapest [] = cheapest
  cheapest_from cheapest (i ∷ is) = cheapest_from (if c.cheaper i cheapest then i else cheapest) is

  -- CheapestInstanceType; `none` is the insufficient capacity error
  unfoldable pub cheapest_instance_type : List InstanceType → Option InstanceType
  unfolding cheapest_from
  cheapest_instance_type [] = none
  cheapest_instance_type (i ∷ is) = some (cheapest_from i (i ∷ is))
