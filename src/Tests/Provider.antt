-- ===== src/Tests/Provider.antt =====
-- Instance types, offerings, labels and taints on the small cluster.
use mathlib.Core.List.{Memᴰ}
use karpenter_provider_linod.Base.{
  ℕ, ◌-◌, ◌^◌, ◌≡◌, refl, ◌≢◌, true, false, none, some, [], ◌∷◌, arith, ltb, ◌==◌, if◌then◌else◌,
  Text, codes, text_eq, Dict, lookup, pos, itoa,
}
use karpenter_provider_linod.Cache.{CacheOps}
use karpenter_provider_linod.Objects.{label_topology_zone, enterprise}
use karpenter_provider_linod.Offerings.{
  unavailable_offerings_ttl, seq_num, is_unavailable, mark_unavailable, mark_region_unavailable,
  UnavailableOfferings,
}
use karpenter_provider_linod.Selection.{
  keeps, filter_instance_types, cheapest_instance_type, Catalog,
}
use karpenter_provider_linod.Lke.Pools.{lke_labels_from_node_claim}
use karpenter_provider_linod.Lke.Query.{
  common_known_ephemeral_taints, register_known_ephemeral_taints,
}
use karpenter_provider_linod.Tests.World.{claim}
use karpenter_provider_linod.Cache.Sample.{Sample, sample_cache, sample_cache-CacheLaws}
use karpenter_provider_linod.Selection.Cheapest.{cheapest_instance_type_lem, PriceLaws}
use karpenter_provider_linod.Offerings.Marks.{mark_unavailable_lem, mark_region_unavailable_lem}
use karpenter_provider_linod.Lke.Pools.Labels.{lookup-lke_labels_from_node_claim}
use karpenter_provider_linod.Lke.Query.Taints.{Knows, register_known_ephemeral_taints_idem}

-- three types, named by their prices, of which the cheapest is out of stock
abbrev priced : Catalog
priced = record {
  InstanceType = ℕ;
  name = λ i. itoa (pos i);
  is_compatible = λ claim' i. true;
  fits = λ claim' i. true;
  available = λ claim' i. if i == 1 then 0 else 2;
  cheaper = λ i j. ltb i j;
}

priced-PriceLaws : PriceLaws priced
priced-PriceLaws = record {
  irreflexive = λ i. ground arith;
  negatively_transitive = λ i j k h h'. ground arith;
  asymmetric = λ i j h. ground arith;
}

kept_two : filter_instance_types priced claim (3 ∷ 1 ∷ 2 ∷ []) ≡ some (3 ∷ 2 ∷ [])
unfolding filter_instance_types keeps
kept_two = refl

two_cheapest : cheapest_instance_type priced (3 ∷ 2 ∷ []) ≡ some 2
unfolding cheapest_instance_type
two_cheapest = refl

three_kept : keeps priced claim 3 ≡ true
unfolding keeps
three_kept = refl

cheapest_instance_type_lem_example :
    Memᴰ {A = ℕ} 2 (3 ∷ 1 ∷ 2 ∷ []) × (keeps priced claim 2 ≡ true) × (ltb 3 2 ≡ false)
cheapest_instance_type_lem_example =
    cheapest_instance_type_lem priced priced-PriceLaws claim (3 ∷ 1 ∷ 2 ∷ []) (3 ∷ 2 ∷ []) 2 3
      kept_two two_cheapest (Memᴰ.head refl) three_kept

abbrev ops : CacheOps (Sample (Unit {0})) (Unit {0})
ops = sample_cache (Unit {0}) unavailable_offerings_ttl

abbrev none_yet : UnavailableOfferings (Sample (Unit {0}))
none_yet = record {
  offering_cache = [];
  offering_seq_num = [];
  region_cache = [];
  region_seq_num = 2 ^ 64 - 1;
}

other_plan : text_eq (codes "g6-standard-2") (codes "g6-standard-4") ≡ false
unfolding text_eq
other_plan = refl

mark_unavailable_lem_example :
    (is_unavailable ops
        (mark_unavailable ops none_yet 5 (codes "g6-standard-2") (codes "us-ord"))
        9
        (codes "g6-standard-2")
        (codes "us-ord")
      ≡ true)
    × (seq_num
          (mark_unavailable ops none_yet 5 (codes "g6-standard-2") (codes "us-ord"))
          (codes "g6-standard-2")
        ≢ seq_num none_yet (codes "g6-standard-2"))
    × (seq_num
          (mark_unavailable ops none_yet 5 (codes "g6-standard-2") (codes "us-ord"))
          (codes "g6-standard-4")
        ≡ seq_num none_yet (codes "g6-standard-4"))
mark_unavailable_lem_example =
    mark_unavailable_lem ops (sample_cache-CacheLaws _ unavailable_offerings_ttl) none_yet 5 9
      (codes "g6-standard-2") (codes "g6-standard-4") (codes "us-ord") (omega arith) (omega arith)
      other_plan

mark_region_unavailable_lem_example :
    (is_unavailable ops
        (mark_region_unavailable ops none_yet 5 (codes "us-ord"))
        9
        (codes "g6-standard-2")
        (codes "us-ord")
      ≡ true)
    × (seq_num (mark_region_unavailable ops none_yet 5 (codes "us-ord")) (codes "g6-standard-2")
        ≢ seq_num none_yet (codes "g6-standard-2"))
mark_region_unavailable_lem_example =
    mark_region_unavailable_lem ops (sample_cache-CacheLaws _ unavailable_offerings_ttl) none_yet 5
      9 (codes "g6-standard-2") (codes "us-ord") (omega arith) (omega arith)

abbrev zoned : Dict Text
zoned = (label_topology_zone, codes "us-ord") ∷ (codes "team", codes "web") ∷ []

lookup-lke_labels_from_node_claim_example :
    lookup (codes "team") (lke_labels_from_node_claim zoned)
    ≡ (if text_eq (codes "team") label_topology_zone then none else lookup (codes "team") zoned)
lookup-lke_labels_from_node_claim_example = lookup-lke_labels_from_node_claim (codes "team") zoned

register_known_ephemeral_taints_idem_example :
    Knows common_known_ephemeral_taints (register_known_ephemeral_taints enterprise [])
    × (register_known_ephemeral_taints enterprise (register_known_ephemeral_taints enterprise [])
        ≡ register_known_ephemeral_taints enterprise [])
register_known_ephemeral_taints_idem_example = register_known_ephemeral_taints_idem enterprise []
