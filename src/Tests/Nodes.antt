-- ===== src/Tests/Nodes.antt =====
-- An instance provider and a cloud provider on small clouds.
use karpenter_provider_linod.Errors.{
  Err, linode, http, err_has_status, instance_creation_failed, create_error,
}
use karpenter_provider_linod.Offerings.Update.{region_codes}
use karpenter_provider_linod.Tests.World.{claim, missing, machine, one_type}
use karpenter_provider_linod.Tests.World.{node_class as web_class}
use karpenter_provider_linod.Controllers.State.{◌>>=◌, parse_instance_id}
use karpenter_provider_linod.Base.{
  ℕ, ◌+◌, ◌≡◌, refl, ◌⊎◌, true, false, ◌||◌, none, some, List, [], ◌∷◌, arith, codes, pos, itoa,
  inl, inr, All, text_eq,
}
use karpenter_provider_linod.Objects.{new_lke_instance, NodeClaim, Instance}
use karpenter_provider_linod.Cache.{CacheOps}
use karpenter_provider_linod.Cache.Sample.{Sample, sample_cache, sample_cache-CacheLaws}
use karpenter_provider_linod.Offerings.{unavailable_offerings_ttl, new_unavailable_offerings}
use karpenter_provider_linod.Selection.{
  keeps, filter_reject, filter_instance_types, cheapest_from, cheapest_instance_type,
}
use karpenter_provider_linod.InstanceTypes.Types.{Offering, InstanceType}
use karpenter_provider_linod.InstanceTypes.Offers.{
  create_offerings, OfferingProvider, Plans, cache_key_from_instance_type,
}
use karpenter_provider_linod.InstanceTypes.Offers.Marked.{offers_region}
use karpenter_provider_linod.NodeClasses.Types.{ClassSpec, LinodeNodeClass, is_true, succeeded}
use karpenter_provider_linod.Lke.State.{ok, err}
use karpenter_provider_linod.Instances.{create_linode, Cloud, CloudState}
use karpenter_provider_linod.Instances.Failed.{create_linode-withdraws}
use karpenter_provider_linod.CloudProvider.Types.{Platform}
use karpenter_provider_linod.CloudProvider.Find.{instance_to_node_claim}
use karpenter_provider_linod.CloudProvider.Provider.{
  create_ready, create_claim, claim_of_instance, get_claim, delete_claim,
}
use karpenter_provider_linod.CloudProvider.Ready.{is_usable, create_claim-is_usable}
use karpenter_provider_linod.CloudProvider.Ids.{delete_claim-provider_id}
use karpenter_provider_linod.InstanceTypes.Offers.Withdrawn.{Ask, after_asks, InTime}

abbrev pub plain_spec : ClassSpec
plain_spec = record {
  authorized_keys = [];
  authorized_users = [];
  image = [];
  backups_enabled = false;
  firewall_id = none;
  has_os_disk = false;
  has_data_disks = false;
  disk_encryption = [];
  has_configuration = false;
  placement_group = none;
  has_vpc_id = false;
  has_ipv6_options = false;
  swap_size = none;
  kubelet = none;
}

abbrev pub ready_class : LinodeNodeClass
ready_class = record {
  meta = web_class;
  spec = plain_spec;
  ready = some (record { status = is_true; observed_generation = 1 });
  validation = succeeded;
  has_finalizer = true;
}

abbrev stale_class : LinodeNodeClass
stale_class = record ready_class {
  ready = some (record { status = is_true; observed_generation = 0 });
}

abbrev pub deleted_class : LinodeNodeClass
deleted_class = record ready_class { meta = record web_class { deleted = true } }

abbrev sold_out : Err
sold_out = linode (record { status = http 400; reasons = none })

-- a cloud without capacity, with the time as its world
abbrev full_cloud : Cloud
full_cloud = record {
  World = ℕ;
  create_instance = λ options w. (err sold_out, w + 1);
  get_instance = λ id w. (err missing, w + 1);
  list_instances = λ filter w. (ok [], w + 1);
  delete_instance = λ id w. (ok tt, w + 1);
  create_tag = λ id label w. (ok tt, w + 1);
  update_instance = λ id tags w. (ok (machine id), w + 1);
  now = λ w. w;
  sleep = λ d w. w + d;
  uuid = λ w. (codes "0123456789ab", w);
  InstanceCache = Sample Instance;
  instance_ops = sample_cache Instance 60;
  MarkCache = Sample (Unit {0});
  mark_ops = sample_cache (Unit {0}) unavailable_offerings_ttl;
  catalog = one_type;
}

abbrev at_ten : CloudState full_cloud
at_ten = record { world = 10; cache = []; marks = new_unavailable_offerings [] [] }

abbrev small_plan : InstanceType
small_plan = record {
  name = codes "g6-standard-2";
  requirements = [];
  offerings = [];
  capacity = [];
  dynamic_resources = [];
  kube_reserved = [];
  system_reserved = [];
  eviction_threshold = [];
}

abbrev plans : Plans
plans = record {
  types = [];
  regions = codes "us-ord" ∷ [];
  offered = (codes "g6-standard-2", codes "us-ord" ∷ []) ∷ [];
}

abbrev offers_cache : CacheOps (Sample (List Offering)) (List Offering)
offers_cache = sample_cache (List Offering) 300000000000

abbrev no_offers : OfferingProvider (Sample (List Offering))
no_offers = record { cache = []; last_seq_num = [] }

abbrev large_plan : InstanceType
large_plan = record small_plan { name = codes "g6-standard-8" }

-- the type itself and another one, while the mark lasts
abbrev two_asks : List Ask
two_asks = (20, plans, small_plan) ∷ (30, plans, large_plan) ∷ []

two_asks-InTime :
    All (InTime (λ regions. []) small_plan 11 (11 + unavailable_offerings_ttl)) two_asks
unfolding text_eq cache_key_from_instance_type
two_asks-InTime =
    ((omega arith, omega arith, inl refl), ((omega arith, omega arith, inr (refl, refl)), tt))

one_kept :
    filter_instance_types one_type claim (codes "g6-standard-2" ∷ [])
    ≡ some (codes "g6-standard-2" ∷ [])
unfolding filter_instance_types filter_reject keeps
one_kept = refl

one_cheapest :
    cheapest_instance_type one_type (codes "g6-standard-2" ∷ []) ≡ some (codes "g6-standard-2")
unfolding cheapest_instance_type cheapest_from
one_cheapest = refl

is_sold_out :
    (err_has_status sold_out (http 400 ∷ []) || err_has_status sold_out region_codes) ≡ true
unfolding err_has_status
is_sold_out = refl

create_linode-withdraws_example :
    ((create_linode full_cloud
        (codes "us-ord")
        ready_class
        claim
        []
        (codes "g6-standard-2" ∷ [])
        at_ten).0.0
      ≡ err (create_error instance_creation_failed sold_out))
    × (offers_region
          (codes "us-ord")
          (create_offerings offers_cache full_cloud.mark_ops
            (λ regions. [])
            (create_linode full_cloud
              (codes "us-ord")
              ready_class
              claim
              []
              (codes "g6-standard-2" ∷ [])
              at_ten).1.marks
            100
            plans
            (after_asks offers_cache full_cloud.mark_ops
              (λ regions. [])
              (create_linode full_cloud
                (codes "us-ord")
                ready_class
                claim
                []
                (codes "g6-standard-2" ∷ [])
                at_ten).1.marks
              two_asks
              (create_offerings offers_cache full_cloud.mark_ops
                (λ regions. [])
                at_ten.marks
                5
                plans
                no_offers
                small_plan).1)
            small_plan).0
        ≡ false)
create_linode-withdraws_example =
    create_linode-withdraws full_cloud offers_cache 300000000000 (λ regions. []) (codes "us-ord")
      ready_class claim [] (codes "g6-standard-2" ∷ []) (codes "g6-standard-2" ∷ [])
      (codes "g6-standard-2") at_ten sold_out 5 11 100 plans plans no_offers small_plan two_asks
      (sample_cache-CacheLaws (Unit {0}) unavailable_offerings_ttl)
      (sample_cache-CacheLaws (List Offering) 300000000000) one_kept one_cheapest refl refl
      is_sold_out refl two_asks-InTime (omega arith) (omega arith)

-- a cluster whose node class was changed since its status was written
abbrev platform : Platform
platform = record {
  World = ℕ;
  get_node_class = λ name w. (ok stale_class, w + 1);
  get_node_pool = λ name w. (ok (record { node_class_ref = some (codes "default") }), w + 1);
  list_types = λ node_class w. (ok (small_plan ∷ []), w + 1);
  create_node = λ node_class node_claim tags types w. (
    (ok (new_lke_instance (pos 70) (codes "g6-standard-2") [] (codes "us-ord") none), node_class),
    w + 1,
  );
  list_nodes = λ w. (ok [], w + 1);
  get_node = λ id w. (err missing, w + 1);
  delete_node = λ id w. (ok tt, w + 1);
  now = λ w. w;
  spec_hash = λ spec version. codes "123";
  allocatable = λ it. it.capacity;
  nil_is_unknown = true;
  reservation_id_label = codes "reservation";
  lke_mode = false;
  cluster_name = codes "prod";
}

create_claim-is_usable_example :
    (is_usable platform stale_class ≡ true
      × (create_claim platform claim 0 ≡ create_ready platform claim stale_class 1))
    ⊎ (is_usable platform stale_class ≡ false
        × ((x : Err) × (create_claim platform claim 0 ≡ (err x, 1))))
create_claim-is_usable_example =
    create_claim-is_usable platform claim (codes "default") 0 1 stale_class refl refl

abbrev linode_70 : Instance
linode_70 = new_lke_instance (pos 70) (codes "g6-standard-2") [] (codes "us-ord") none

abbrev claim_70 : NodeClaim
claim_70 = record claim { provider_id = codes "linode://70" }

same_id : claim_70.provider_id ≡ (instance_to_node_claim platform linode_70 none 0).provider_id
unfolding instance_to_node_claim itoa new_lke_instance
same_id = refl

delete_claim-provider_id_example :
    (parse_instance_id claim_70.provider_id ≡ some (itoa linode_70.id))
    × (delete_claim platform claim_70 ≡ platform.delete_node (itoa linode_70.id))
    × (get_claim platform claim_70.provider_id
        ≡ (do found ← platform.get_node (itoa linode_70.id); claim_of_instance platform found))
delete_claim-provider_id_example =
    delete_claim-provider_id platform linode_70 none 0 claim_70 same_id
