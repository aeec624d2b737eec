-- ===== src/Controllers/Garbage/Safe.antt =====
-- Which instances the garbage collection leaves alone.
use karpenter_provider_linod.Controllers.Garbage.{
  find_node, delete_found, after_delete, garbage_collect, is_garbage, collect_all, NodeRef,
  Collector, provider_ids, reconcile_garbage, not_terminating, finish_collect,
}
use karpenter_provider_linod.Base.{
  ◌≡◌, subst, inl, inr, true, false, Option, none, some, List, [], ◌∷◌, arith, Bool-cases, Text,
  text_eq, text_eq_iff, contains, ℕ, refl,
}
use karpenter_provider_linod.Controllers.State.{Run, and_then, map_err}
use karpenter_provider_linod.Errors.{Err, wrap}
use karpenter_provider_linod.CloudProvider.Types.{CloudClaim}
use karpenter_provider_linod.Lke.State.{Result, ok, err}

module _ (c : Collector) where
  open c use {World}

  -- A property of the world that survives the lists, the deletion of nodes, and the deletion of every
  -- instance but those with one provider ID.
  pub record Survives (P : World → Type 0) (id : Text) : Type 0 where
    pub listing_cloud : (w : World) → P w → P (c.list_cloud w).1
    pub listing_managed : (w : World) → P w → P (c.list_managed w).1
    pub listing_nodes : (w : World) → P w → P (c.list_nodes w).1
    pub deleting_node : (name : Text) (w : World) → P w → P (c.delete_node name w).1
    pub deleting_claim :
        (j : Text) (w : World) → text_eq j id ≡ false → P w → P (c.delete_claim j w).1

  delete_found-keeps :
      {P : World → Type 0} {id : Text} (h : Survives P id) (n : Option NodeRef) (w : World)
      → P w
      → P (delete_found c n w).1
  delete_found-keeps h none w p = p
  delete_found-keeps h (some n) w p = h.deleting_node n.name w p

  after_delete-keeps :
      {P : World → Type 0} {id : Text} (h : Survives P id) (j : Text) (nodes : List NodeRef)
      (r : Result (Unit {0})) (w : World)
      → P w
      → P (after_delete c j nodes r w).1
  after_delete-keeps h j nodes (ok u) w p = delete_found-keeps h (find_node j nodes) w p
  after_delete-keeps h j nodes (err x) w p = p

  garbage_collect-keeps :
      {P : World → Type 0} {id : Text} (h : Survives P id) (j : Text) (nodes : List NodeRef)
      (w : World)
      → text_eq j id ≡ false
      → P w
      → P (garbage_collect c j nodes w).1
  unfolding garbage_collect
  garbage_collect-keeps h j nodes w ne p =
      after_delete-keeps h j nodes (c.delete_claim j w).0 (c.delete_claim j w).1
        (h.deleting_claim j w ne p)

  not_managed :
      (id j : Text) (ids : List Text)
      → contains id ids ≡ true
      → contains j ids ≡ false
      → text_eq j id ≡ false
  not_managed id j ids h k = elim (Bool-cases (text_eq j id)) [
    | inl same ↦
        absurd
          (ground (arith, h, subst (λ i. contains i ids ≡ false) ((text_eq_iff j id).0 same) k))
    | inr differs ↦ differs
  ]

  unlisted :
      (ids : List Text) (w : World) (claim : CloudClaim)
      → is_garbage c ids w claim ≡ true
      → contains claim.provider_id ids ≡ false
  unfolding is_garbage
  unlisted ids w claim h = ground (arith, h)

  collect_all-keeps :
      {P : World → Type 0} {id : Text} (h : Survives P id) (ids : List Text) (nodes : List NodeRef)
      (claims : List CloudClaim) (w : World)
      → contains id ids ≡ true
      → P w
      → P (collect_all c ids nodes claims w).1
  unfolding collect_all
  collect_all-keeps h ids nodes [] w managed p = p
  collect_all-keeps h ids nodes (claim ∷ claims) w managed p =
      elim (Bool-cases (is_garbage c ids w claim)) [
        | inl garbage ↦ rw garbage (
            collect_all-keeps h ids nodes claims (garbage_collect c claim.provider_id nodes w).1
              managed
              (garbage_collect-keeps h claim.provider_id nodes w
                (not_managed _ claim.provider_id ids managed (unlisted ids w claim garbage)) p))
        | inr kept ↦ rw kept (collect_all-keeps h ids nodes claims w managed p)
      ]

  contains-provider_ids :
      (id : Text) (ids : List Text)
      → text_eq id [] ≡ false
      → contains id ids ≡ true
      → contains id (provider_ids ids) ≡ true
  unfolding provider_ids contains
  contains-provider_ids id [] ne h = h
  contains-provider_ids id (j ∷ ids) ne h =
      ground (arith, text_eq_iff j id, text_eq_iff j [], ne, h, contains-provider_ids id ids)

  and_then-keeps :
      {A B : Type 0} (P : World → Type 0) (r : Result A) (f : A → Run World B) (w : World)
      → P w
      → ((a : A) → r ≡ ok a → P (f a w).1)
      → P (and_then r f w).1
  and_then-keeps P (ok a) f w p next = next a refl
  and_then-keeps P (err x) f w p next = p

  finish_collect-keeps :
      (P : World → Type 0) (count : ℕ) (r : Option Err × World)
      → P r.1
      → P (finish_collect c count r).1
  finish_collect-keeps P count (none, w) p = p
  finish_collect-keeps P count (some x, w) p = p

  -- The garbage collection deletes no instance that the cluster manages: what survives the lists and the
  -- deletion of nodes and of all other instances survives Reconcile, if the provider ID is not empty and
  -- the cluster lists it as long as that holds.
  pub reconcile_garbage-keeps :
      {P : World → Type 0} {id : Text} (h : Survives P id) (count : ℕ) (w : World)
      → text_eq id [] ≡ false
      → ((v : World) (ids : List Text)
          → P v
          → (c.list_managed v).0 ≡ ok ids
          → contains id ids ≡ true)
      → P w
      → P (reconcile_garbage c count w).1
  unfolding reconcile_garbage
  reconcile_garbage-keeps {P = P} {id = id} h count w ne managed p =
      let listed = h.listing_cloud w p in
      and_then-keeps P (map_err wrap (c.list_cloud w).0) _ (c.list_cloud w).1 listed (λ claims _.
        let known = h.listing_managed (c.list_cloud w).1 listed in
        and_then-keeps P (c.list_managed (c.list_cloud w).1).0 _ _ known (λ ids found.
          let seen = h.listing_nodes _ known in
          and_then-keeps P (c.list_nodes (c.list_managed (c.list_cloud w).1).1).0 _ _ seen
            (λ nodes _. finish_collect-keeps P count _ (
              collect_all-keeps h (provider_ids ids) nodes (not_terminating claims) _
                (contains-provider_ids id ids ne (managed (c.list_cloud w).1 ids listed found))
                seen))))
