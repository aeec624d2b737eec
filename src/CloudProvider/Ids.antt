-- ===== src/CloudProvider/Ids.antt =====
-- The identifiers of instances in node claims.
use karpenter_provider_linod.Controllers.State.{
  after_scheme, lines_of, first_id, parse_instance_id, ◌>>=◌,
}
use karpenter_provider_linod.Base.{
  ◌≡◌, refl, true, none, some, [], ◌∷◌, ◌++◌, arith, Text, codes, is_decimal, has_prefix, ap, ◌∙◌,
  Option, itoa, itoa-is_decimal,
}
use karpenter_provider_linod.Objects.{NodeClaim, Instance}
use karpenter_provider_linod.InstanceTypes.Types.{InstanceType}
use karpenter_provider_linod.CloudProvider.Types.{Platform}
use karpenter_provider_linod.CloudProvider.Find.{instance_to_node_claim}
use karpenter_provider_linod.CloudProvider.Provider.{
  claim_of_instance, get_claim, delete_claim, get_parsed, delete_parsed,
}

after_scheme-decimal : (s : Text) → is_decimal s ≡ true → after_scheme s ≡ none
unfolding after_scheme is_decimal has_prefix
after_scheme-decimal [] h = refl
after_scheme-decimal (c ∷ s) h = ground (arith, h, after_scheme-decimal s)

lines_of-decimal : (s : Text) → is_decimal s ≡ true → lines_of s ≡ s ∷ []
unfolding lines_of is_decimal
lines_of-decimal [] h = refl
lines_of-decimal (c ∷ s) h = ground (arith, h, lines_of-decimal s)

parse_instance_id-decimal :
    (s : Text) → is_decimal s ≡ true → parse_instance_id (codes "linode://" ++ s) ≡ some s
unfolding parse_instance_id lines_of first_id after_scheme has_prefix
parse_instance_id-decimal s h = rw (lines_of-decimal s h, after_scheme-decimal s h) refl

module _ (p : Platform) where
  open p use {World}

  -- The provider ID of the claim of an instance holds its identifier: Get and Delete for a claim with
  -- that ID ask the node provider for that instance.
  pub delete_claim-provider_id :
      (i : Instance) (it : Option InstanceType) (w : World) (node_claim : NodeClaim)
      → node_claim.provider_id ≡ (instance_to_node_claim p i it w).provider_id
      → (parse_instance_id node_claim.provider_id ≡ some (itoa i.id))
        × (delete_claim p node_claim ≡ p.delete_node (itoa i.id))
        × (get_claim p node_claim.provider_id
            ≡ (do found ← p.get_node (itoa i.id); claim_of_instance p found))
  unfolding delete_claim get_claim instance_to_node_claim
  delete_claim-provider_id i it w node_claim same =
      let parsed =
        ap parse_instance_id same ∙ parse_instance_id-decimal (itoa i.id) (itoa-is_decimal i.id) in
      (parsed, ap (delete_parsed p) parsed, ap (get_parsed p) parsed)
