-- ===== src/Instances/Failed.antt =====
-- What a failed creation of an instance says of the offerings.
use karpenter_provider_linod.Base.{
  ℕ, ◌+◌, ◌≤◌, ◌<◌, ◌≡◌, refl, ap, ◌∙◌, ◌≢◌, inl, inr, true, false, ◌||◌, some, List, [], ◌∷◌,
  Bool-cases, Text, Dict, All,
}
use karpenter_provider_linod.Errors.{
  err_has_status, Err, http, instance_creation_failed, create_error,
}
use karpenter_provider_linod.Objects.{NodeClaim, LinodeInstance}
use karpenter_provider_linod.Cache.{CacheOps, CacheLaws}
use karpenter_provider_linod.Offerings.{unavailable_offerings_ttl, seq_num, is_unavailable}
use karpenter_provider_linod.Offerings.Marks.{
  is_unavailable-mark_unavailable, seq_num-mark_unavailable, mark_region_unavailable_lem,
}
use karpenter_provider_linod.Offerings.Update.{update_unavailable_offerings_cache, region_codes}
use karpenter_provider_linod.Selection.{filter_instance_types, cheapest_instance_type}
use karpenter_provider_linod.InstanceTypes.Types.{Offering, InstanceType}
use karpenter_provider_linod.InstanceTypes.Offers.{create_offerings, OfferingProvider, Plans}
use karpenter_provider_linod.InstanceTypes.Offers.Marked.{offers_region, create_offerings-last}
use karpenter_provider_linod.NodeClasses.Types.{LinodeNodeClass}
use karpenter_provider_linod.Lke.State.{Result, err}
use karpenter_provider_linod.Instances.{
  calling, create_options, note_answer, created, create_as, create_cheapest, create_kept,
  create_linode, imaged, Cloud, CloudState,
}
use karpenter_provider_linod.InstanceTypes.Offers.Withdrawn.{
  Ask, after_asks, InTime, create_offerings-after_asks,
}

module _ (c : Cloud) where
  -- the identifiers, and the answer of CreateInstance with the state after it
  abbrev pub create_answer :
      Text
      → LinodeNodeClass
      → NodeClaim
      → Dict Text
      → Text
      → CloudState c
      → Result LinodeInstance × CloudState c
  create_answer region node_class node_claim tags type s =
      let (label_id, t) = calling c c.uuid s in
      let (root_pass, u) = calling c c.uuid t in
      calling c
        (c.create_instance
          (create_options c region (imaged node_class) node_claim tags type label_id root_pass))
        u

  create_as-answer :
      (region : Text) (node_class : LinodeNodeClass) (node_claim : NodeClaim) (tags : Dict Text)
      (type : Text) (s : CloudState c)
      → create_as c region node_class node_claim tags type s ≡ (
        (created c (create_answer region node_class node_claim tags type s).0, imaged node_class),
        note_answer c region type
            (create_answer region node_class node_claim tags type s).0
            (create_answer region node_class node_claim tags type s).1,
      )
  unfolding create_as
  create_as-answer region node_class node_claim tags type s = refl

  create_linode-as :
      (region : Text) (node_class : LinodeNodeClass) (node_claim : NodeClaim) (tags : Dict Text)
      (types kept : List c.catalog.InstanceType) (cheapest : c.catalog.InstanceType)
      (s : CloudState c)
      → filter_instance_types c.catalog node_claim types ≡ some kept
      → cheapest_instance_type c.catalog kept ≡ some cheapest
      → create_linode c region node_class node_claim tags types s
        ≡ create_as c region node_class node_claim tags (c.catalog.name cheapest) s
  unfolding create_linode
  create_linode-as region node_class node_claim tags types kept cheapest s f h =
      ap (λ o. create_kept c region node_class node_claim tags o s) f
      ∙ ap (λ o. create_cheapest c region node_class node_claim tags o s) h

  -- what a status of 400, or one of a failing region, marks
  note_answer-marks :
      (region type : Text) (x : Err) (s : CloudState c) (later : ℕ)
      → CacheLaws c.mark_ops unavailable_offerings_ttl
      → (err_has_status x (http 400 ∷ []) || err_has_status x region_codes) ≡ true
      → c.now s.world ≤ later
      → later < c.now s.world + unavailable_offerings_ttl
      → (seq_num (note_answer c region type (err x) s).marks type ≢ seq_num s.marks type)
        × (is_unavailable c.mark_ops (note_answer c region type (err x) s).marks later type region
            ≡ true)
  unfolding note_answer update_unavailable_offerings_cache
  note_answer-marks region type x s later laws status le lt =
      elim (Bool-cases (err_has_status x (http 400 ∷ []))) [
        | inl bad ↦ rw bad (
          seq_num-mark_unavailable c.mark_ops laws s.marks (c.now s.world) type region,
          is_unavailable-mark_unavailable c.mark_ops laws s.marks (c.now s.world) later type region
              le lt,
        )
        | inr fine ↦
            let (gone, moved) =
              mark_region_unavailable_lem c.mark_ops laws s.marks (c.now s.world) later type region
                le lt in
            rw (fine, rw fine at status) (moved, gone)
      ]

  -- Given the laws of the two caches, when CreateInstance answers with the status 400 or with one of a
  -- failing region, Create fails with the reason InstanceCreationFailed. If the offering provider last
  -- answered for the instance type that Create had chosen under the marks as they were, then, as long as
  -- no other mark is made, each of its answers for that type in the next three minutes leaves out the
  -- region of the provider, whatever it had cached and however many calls in these minutes are before
  -- it, for the type itself or for types with another name and another key in the cache.
  pub create_linode-withdraws :
      {C : Type 0} (ops : CacheOps C (List Offering)) (ttl : ℕ) (regions_hash : List Text → Text)
      (region : Text) (node_class : LinodeNodeClass) (node_claim : NodeClaim) (tags : Dict Text)
      (types kept : List c.catalog.InstanceType) (cheapest : c.catalog.InstanceType)
      (s : CloudState c) (x : Err) (first from later : ℕ) (before after : Plans)
      (p : OfferingProvider C) (it : InstanceType) (asks : List Ask)
      → CacheLaws c.mark_ops unavailable_offerings_ttl
      → CacheLaws ops ttl
      → filter_instance_types c.catalog node_claim types ≡ some kept
      → cheapest_instance_type c.catalog kept ≡ some cheapest
      → it.name ≡ c.catalog.name cheapest
      → (create_answer region node_class node_claim tags (c.catalog.name cheapest) s).0 ≡ err x
      → (err_has_status x (http 400 ∷ []) || err_has_status x region_codes) ≡ true
      → c.now (create_answer region node_class node_claim tags (c.catalog.name cheapest) s).1.world
        ≡ from
      → All (InTime regions_hash it from (from + unavailable_offerings_ttl)) asks
      → from ≤ later
      → later < from + unavailable_offerings_ttl
      → ((create_linode c region node_class node_claim tags types s).0.0
          ≡ err (create_error instance_creation_failed x))
        × (offers_region region
              (create_offerings ops c.mark_ops regions_hash
                (create_linode c region node_class node_claim tags types s).1.marks
                later
                after
                (after_asks ops c.mark_ops regions_hash
                  (create_linode c region node_class node_claim tags types s).1.marks
                  asks
                  (create_offerings ops c.mark_ops regions_hash s.marks first before p it).1)
                it).0
            ≡ false)
  create_linode-withdraws ops ttl regions_hash region node_class node_claim tags types kept cheapest
        s x first from later before after p it asks laws offer_laws f h same answer status at_from
        in_time le lt =
      let after_answer =
        (create_answer region node_class node_claim tags (c.catalog.name cheapest) s).1 in
      let run =
        create_linode-as region node_class node_claim tags types kept cheapest s f h
        ∙ create_as-answer region node_class node_claim tags (c.catalog.name cheapest) s
        ∙ ap
            (λ a. (
              (created c a, imaged node_class),
              note_answer c region (c.catalog.name cheapest) a after_answer,
            ))
            answer in
      let noted = note_answer c region (c.catalog.name cheapest) (err x) after_answer in
      let marked : (t : ℕ)
          → from ≤ t
          → t < from + unavailable_offerings_ttl
          → (seq_num noted.marks it.name ≢ seq_num after_answer.marks it.name)
            × (is_unavailable c.mark_ops noted.marks t it.name region ≡ true) =
        λ t le' lt'. rw same (
          note_answer-marks region (c.catalog.name cheapest) x after_answer t laws status
            (rw at_from le') (rw at_from lt')) in
      (
        ap (λ r. r.0.0) run,
        ap
              (λ marks.
                offers_region region
                  (create_offerings ops c.mark_ops regions_hash marks later after
                    (after_asks ops c.mark_ops regions_hash marks asks
                      (create_offerings ops c.mark_ops regions_hash s.marks first before p it).1)
                    it).0)
              (ap (λ r. r.1.marks) run)
            ∙ create_offerings-after_asks ops c.mark_ops regions_hash ttl offer_laws noted.marks it
                region from (from + unavailable_offerings_ttl) (seq_num s.marks it.name) asks
                (create_offerings ops c.mark_ops regions_hash s.marks first before p it).1 later
                after (λ t le' lt'. (marked t le' lt').1)
                (create_offerings-last ops c.mark_ops regions_hash s.marks first before p it)
                (marked later le lt).0 in_time le lt,
      )
