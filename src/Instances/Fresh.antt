-- ===== src/Instances/Fresh.antt =====
-- What the cache of instances does to later calls.
use karpenter_provider_linod.Base.{
  ◌≡◌, refl, ap, Bool, true, false, none, Text, atoi, ℕ, List, text_eq_refl, Option, some, arith, ℤ,
}
use karpenter_provider_linod.Instances.{
  fetch, or_fetch, get_linode, Cloud, CloudState, drop_instance, calling,
}
use karpenter_provider_linod.Instances.Updates.{update_linode_tags, failing, update_parsed}
use karpenter_provider_linod.Controllers.State.{and_then}
use karpenter_provider_linod.Cache.{CacheLaws}
use karpenter_provider_linod.Lke.State.{Result, ok, err}

module _ (c : Cloud) where
  get_linode-missed :
      (id : Text) (skip : Bool) (s : CloudState c)
      → c.instance_ops.get s.cache (c.now s.world) id ≡ none
      → get_linode c id skip s ≡ fetch c id (atoi id) s
  unfolding get_linode
  get_linode-missed id true s h = refl
  get_linode-missed id false s h = ap (λ o. or_fetch c id o s) h

  -- the end of UpdateTags
  dropped-missed :
      {A : Type 0} (ttl : ℕ) (id : Text) (r : Result A) (s : CloudState c)
      → CacheLaws c.instance_ops ttl
      → (and_then r (λ _. drop_instance c id) s).0 ≡ ok tt
      → c.instance_ops.get
          (and_then r (λ _. drop_instance c id) s).1.cache
          (c.now (and_then r (λ _. drop_instance c id) s).1.world)
          id
        ≡ none
  dropped-missed ttl id (ok u) s laws h =
      rw (laws.get-delete s.cache (c.now s.world) id id, text_eq_refl id) refl
  dropped-missed ttl id (err x) s laws h = absurd (ground (arith, h))

  update_linode_tags-missed :
      (ttl : ℕ) (laws : CacheLaws c.instance_ops ttl) (id : Text) (tags : List Text)
      (s : CloudState c)
      → (update_linode_tags c id tags s).0 ≡ ok tt
      → c.instance_ops.get
          (update_linode_tags c id tags s).1.cache
          (c.now (update_linode_tags c id tags s).1.world)
          id
        ≡ none
  unfolding update_linode_tags
  update_linode_tags-missed ttl laws id tags s h = parsed (atoi id) h
    where
      parsed :
          (n : Option ℤ)
          → (update_parsed c id tags n s).0 ≡ ok tt
          → c.instance_ops.get
              (update_parsed c id tags n s).1.cache
              (c.now (update_parsed c id tags n s).1.world)
              id
            ≡ none
      parsed none k = absurd (ground (arith, k))
      parsed (some n) k =
          dropped-missed ttl id (failing c (calling c (c.update_instance n tags)) s).0
            (failing c (calling c (c.update_instance n tags)) s).1 laws k

  -- Given the laws of the cache, after a successful UpdateTags the next Get asks the API again, whatever
  -- was cached for the instance, also without SkipCache.
  pub get_linode-update_linode_tags :
      (ttl : ℕ) (laws : CacheLaws c.instance_ops ttl) (id : Text) (tags : List Text) (skip : Bool)
      (s : CloudState c)
      → (update_linode_tags c id tags s).0 ≡ ok tt
      → get_linode c id skip (update_linode_tags c id tags s).1
        ≡ fetch c id (atoi id) (update_linode_tags c id tags s).1
  get_linode-update_linode_tags ttl laws id tags skip s set =
      get_linode-missed id skip (update_linode_tags c id tags s).1
        (update_linode_tags-missed ttl laws id tags s set)
