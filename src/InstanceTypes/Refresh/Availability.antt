-- ===== src/InstanceTypes/Refresh/Availability.antt =====
-- What the region availability makes of the plans and of the regions.
use karpenter_provider_linod.Base.{
  ◌≡◌, refl, ap, ◌∙◌, Bool, false, ◌&&◌, ◌||◌, List, [], ◌∷◌, arith, if◌then◌else◌, Text, text_eq,
  text_eq_iff, contains, contains-append, Dict, lookup, insert, ℕ, some, lookup-insert,
}
use karpenter_provider_linod.Objects.{RegionAvailability}
use karpenter_provider_linod.InstanceTypes.Refresh.{
  regions_or_none, insert_region, offered_plans, add_regions, all_regions,
  update_instance_type_offerings,
}
use karpenter_provider_linod.Lke.State.{ok, err}
use karpenter_provider_linod.InstanceTypes.Store.{Setup, TypeProvider}
use karpenter_provider_linod.Errors.{Err, wrap}

-- some entry reports the plan as available in the region
unfoldable pub reports : Text → Text → List RegionAvailability → Bool
reports plan region [] = false
reports plan region (off ∷ offs) =
    (text_eq off.plan plan && text_eq off.region region && off.available)
    || reports plan region offs

-- some entry reports some plan as available in the region
unfoldable pub reports_any : Text → List RegionAvailability → Bool
reports_any region [] = false
reports_any region (off ∷ offs) =
    (text_eq off.region region && off.available) || reports_any region offs

contains-insert_region :
    (r region : Text) (regions : List Text)
    → contains r (insert_region region regions) ≡ (text_eq region r || contains r regions)
unfolding contains
contains-insert_region r region regions = ground (
  arith,
  text_eq_iff region r,
  contains-append r regions (region ∷ []),
  ap (λ t. contains t regions),
)

contains-regions_of :
    (r : Text) (off : RegionAvailability) (regions : List Text)
    → contains r (if off.available then insert_region off.region regions else regions)
      ≡ ((text_eq off.region r && off.available) || contains r regions)
contains-regions_of r off regions = ground (arith, contains-insert_region r off.region regions)

contains-insert :
    (plan p r : Text) (v : List Text) (m : Dict (List Text))
    → contains r (regions_or_none (lookup plan (insert p v m)))
      ≡ (if text_eq p plan then contains r v else contains r (regions_or_none (lookup plan m)))
contains-insert plan p r v m =
    ap (λ o. contains r (regions_or_none o)) (lookup-insert plan p v m) ∙ ground arith

contains-offered_plans :
    (plan r : Text) (offs : List RegionAvailability) (m : Dict (List Text))
    → contains r (regions_or_none (lookup plan (offered_plans offs m)))
      ≡ (reports plan r offs || contains r (regions_or_none (lookup plan m)))
unfolding offered_plans reports
contains-offered_plans plan r [] m = refl
contains-offered_plans plan r (off ∷ offs) m = ground (
  arith,
  text_eq_iff off.plan plan,
  ap (λ p. contains r (regions_or_none (lookup p m))),
  contains-offered_plans plan r offs (
      insert off.plan
        (if off.available
          then insert_region off.region (regions_or_none (lookup off.plan m))
          else regions_or_none (lookup off.plan m))
        m),
  contains-insert plan off.plan r
      (if off.available
        then insert_region off.region (regions_or_none (lookup off.plan m))
        else regions_or_none (lookup off.plan m))
      m,
  contains-regions_of r off (regions_or_none (lookup off.plan m)),
)

-- some plan is offered in the region
in_any : Text → Dict (List Text) → Bool
in_any r [] = false
in_any r ((plan, regions) ∷ m) = contains r regions || in_any r m

contains-add_regions :
    (r : Text) (regions all : List Text)
    → contains r (add_regions regions all) ≡ (contains r regions || contains r all)
unfolding add_regions contains
contains-add_regions r [] all = refl
contains-add_regions r (region ∷ regions) all = ground (
  arith,
  contains-add_regions r regions (insert_region region all),
  contains-insert_region r region all,
)

contains-all_regions :
    (r : Text) (m : Dict (List Text)) (all : List Text)
    → contains r (all_regions m all) ≡ (in_any r m || contains r all)
unfolding all_regions in_any
contains-all_regions r [] all = refl
contains-all_regions r ((plan, regions) ∷ m) all =
    ground (
      arith,
      contains-all_regions r m (add_regions regions all),
      contains-add_regions r regions all,
    )

in_any-insert :
    (r plan : Text) (b : Bool) (v : List Text) (m : Dict (List Text))
    → contains r v ≡ (b || contains r (regions_or_none (lookup plan m)))
    → in_any r (insert plan v m) ≡ (b || in_any r m)
unfolding in_any insert lookup contains
in_any-insert r plan b v [] h = ground (arith, h)
in_any-insert r plan b v ((j, w) ∷ m) h = ground (arith, h, in_any-insert r plan b v m)

in_any-offered_plans :
    (r : Text) (offs : List RegionAvailability) (m : Dict (List Text))
    → in_any r (offered_plans offs m) ≡ (reports_any r offs || in_any r m)
unfolding offered_plans reports_any
in_any-offered_plans r [] m = refl
in_any-offered_plans r (off ∷ offs) m =
    in_any-offered_plans r offs _
    ∙ ap (λ b. reports_any r offs || b)
        (in_any-insert r off.plan (text_eq off.region r && off.available) _ m
          (contains-regions_of r off (regions_or_none (lookup off.plan m))))
    ∙ ground arith

module _ (s : Setup) where
  -- After a successful UpdateInstanceTypeOfferings a plan is offered exactly in the regions in which
  -- some entry of the answer reports it as available, and the regions are exactly those in which some
  -- plan is reported as available. A failed one is reported, and changes nothing.
  pub update_instance_type_offerings_lem :
      (now : ℕ) (offs : List RegionAvailability) (plan region : Text) (x : Err) (p : TypeProvider s)
      → (contains region (
            regions_or_none
              (lookup plan (update_instance_type_offerings s now (ok offs) p).1.offered))
          ≡ reports plan region offs)
        × (contains region (update_instance_type_offerings s now (ok offs) p).1.regions
            ≡ reports_any region offs)
        × (update_instance_type_offerings s now (err x) p ≡ (some (wrap x), p))
  unfolding update_instance_type_offerings lookup contains in_any
  update_instance_type_offerings_lem now offs plan region x p = (
    contains-offered_plans plan region offs [] ∙ ground arith,
    contains-all_regions region (offered_plans offs []) []
        ∙ ap (λ b. b || false) (in_any-offered_plans region offs [])
        ∙ ground arith,
    refl,
  )
