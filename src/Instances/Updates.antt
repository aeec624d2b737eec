-- ===== src/Instances/Updates.antt =====
-- CreateTags and UpdateTags of the instance provider.
use karpenter_provider_linod.Controllers.State.{◌>>◌, ret, throw}
use karpenter_provider_linod.Base.{
  Option, none, some, List, [], ◌∷◌, if◌then◌else◌, Text, Dict, ℤ, atoi,
}
use karpenter_provider_linod.Errors.{is_not_found, Err, wrap, node_claim_not_found}
use karpenter_provider_linod.Tags.{map_to_tag_list}
use karpenter_provider_linod.Lke.State.{ok, err}
use karpenter_provider_linod.Instances.{Cloud, Act, calling, drop_instance, invalid_id}

module _ (c : Cloud) where
  abbrev tag_failure : Err → Err
  tag_failure x = if is_not_found x then node_claim_not_found (wrap x) else wrap x

  abbrev pub failing : {A : Type 0} → Act c A → Act c A
  failing m s = elim (m s).0 [ ok a ↦ (ok a, (m s).1) | err x ↦ (err (tag_failure x), (m s).1) ]

  -- the loop of CreateTags: one tag a second
  unfoldable pub create_each : ℤ → List Text → Act c (Unit {0})
  unfolding is_not_found
  create_each n [] = ret tt
  create_each n (label ∷ labels) = do
    λ s. (ok tt, record s { world = c.sleep 1000000000 s.world })
    failing (calling c (c.create_tag n label))
    create_each n labels

  unfoldable pub create_linode_tags : Text → Dict Text → Act c (Unit {0})
  unfolding create_each map_to_tag_list atoi
  create_linode_tags id tags = elim (atoi id) [
    | none ↦ throw invalid_id
    | some n ↦ create_each n (map_to_tag_list tags)
  ]

  abbrev pub update_parsed : Text → List Text → Option ℤ → Act c (Unit {0})
  update_parsed id tags none = throw invalid_id
  update_parsed id tags (some n) = do
    failing (calling c (c.update_instance n tags))
    drop_instance c id

  -- UpdateTags
  unfoldable pub update_linode_tags : Text → List Text → Act c (Unit {0})
  unfolding is_not_found atoi
  update_linode_tags id tags = update_parsed id tags (atoi id)
