-- ===== src/Tests/World.antt =====
-- A cluster small enough to run the provider on: it keeps its instances and its pools, answers a
-- request for what it does not have with 404, and its clock goes on by one with every request.
use karpenter_provider_linod.Base.{
  ℕ, ◌+◌, Bool, true, false, ◌&&◌, none, some, List, [], ◌∷◌, if◌then◌else◌, length, Text, codes,
  contains, Dict, ℤ, pos, int_eq,
}
use karpenter_provider_linod.Errors.{Err, http, linode}
use karpenter_provider_linod.Cache.Sample.{Sample, sample_cache}
use karpenter_provider_linod.Objects.{
  node_pool_label_key, label_lke_managed, NodeClaim, NodeClass, LinodeInstance, Instance, PoolNode,
  NodePool, PoolCreateOptions, standard,
}
use karpenter_provider_linod.Backoff.{new_backoff_tracker, backoff_ttl, BackoffEntry}
use karpenter_provider_linod.Offerings.{unavailable_offerings_ttl}
use karpenter_provider_linod.Selection.{Catalog}
use karpenter_provider_linod.Lke.State.{Result, LinodeApi, Env, Provider, State, ok, err}

pub record Cluster : Type 0 where
  pub time : ℕ
  pub instances : List LinodeInstance
  pub pools : List NodePool

abbrev pub missing : Err
missing = linode (record { status = http 404; reasons = none })

abbrev pub busy : Err
busy = linode (record { status = http 503; reasons = none })

abbrev has_all : List Text → List Text → Bool
has_all [] tags = true
has_all (t ∷ ts) tags = contains t tags && has_all ts tags

abbrev with_tags : List Text → List LinodeInstance → List LinodeInstance
with_tags filter [] = []
with_tags filter (i ∷ is) =
    let rest = with_tags filter is in if has_all filter i.tags then i ∷ rest else rest

abbrev instance_of : ℤ → List LinodeInstance → Result LinodeInstance
instance_of id [] = err missing
instance_of id (i ∷ is) = let rest = instance_of id is in if int_eq i.id id then ok i else rest

abbrev tagged : ℤ → List Text → List LinodeInstance → List LinodeInstance
tagged id tags [] = []
tagged id tags (i ∷ is) =
    (if int_eq i.id id then record i { tags = tags } else i) ∷ tagged id tags is

abbrev pool_of : ℤ → List NodePool → Result NodePool
pool_of id [] = err missing
pool_of id (q ∷ qs) = let rest = pool_of id qs in if int_eq q.id id then ok q else rest

abbrev without : ℤ → List NodePool → List NodePool
without id [] = []
without id (q ∷ qs) = let rest = without id qs in if int_eq q.id id then rest else q ∷ rest

abbrev tick : Cluster → Cluster
tick w = record w { time = w.time + 1 }

abbrev created_instance : LinodeInstance
created_instance = record {
  id = pos 77;
  created = none;
  region = codes "us-ord";
  image = [];
  type = codes "g6-standard-2";
  status = codes "running";
  tags = [];
  lke_cluster_id = pos 5;
}

abbrev created : PoolCreateOptions → NodePool
created options = record {
  id = pos 9;
  count = options.count;
  type = options.type;
  tags = options.tags;
  k8s_version = options.k8s_version;
  linodes = record { id = codes "9-a"; instance_id = pos 77 } ∷ [];
}

abbrev pub cluster_api : LinodeApi Cluster
cluster_api = record {
  list_instances = λ filter w. (ok (with_tags filter w.instances), tick w);
  get_instance = λ id w. (instance_of id w.instances, tick w);
  update_instance = λ id tags w. (
    instance_of id w.instances,
    record w { time = w.time + 1; instances = tagged id tags w.instances },
  );
  get_region_availability = λ region w. (ok [], tick w);
  list_node_pools = λ cluster w. (ok w.pools, tick w);
  get_node_pool = λ cluster id w. (pool_of id w.pools, tick w);
  create_node_pool = λ cluster options w. (
    ok (created options),
    record w {
      time = w.time + 1;
      pools = created options ∷ w.pools;
      instances = created_instance ∷ w.instances;
    },
  );
  update_node_pool = λ cluster id options w. (pool_of id w.pools, tick w);
  delete_node_pool =
      λ cluster id w. (ok tt, record w { time = w.time + 1; pools = without id w.pools });
  delete_node_pool_node = λ cluster id w. (err busy, tick w);
}

-- one instance type for everything
abbrev pub one_type : Catalog
one_type = record {
  InstanceType = Text;
  name = λ i. i;
  is_compatible = λ claim i. true;
  fits = λ claim i. true;
  available = λ claim i. 1;
  cheaper = λ i j. false;
}

abbrev pub cluster : Env
cluster = record {
  World = Cluster;
  api = cluster_api;
  now = λ w. w.time;
  sleep = λ d w. record w { time = w.time + d };
  ctx_err = λ w. none;
  NodeCache = Sample Instance;
  node_ops = sample_cache Instance 60;
  BackoffCache = Sample BackoffEntry;
  backoff_ops = sample_cache BackoffEntry backoff_ttl;
  OfferingCache = Sample (Unit {0});
  offering_ops = sample_cache (Unit {0}) unavailable_offerings_ttl;
  catalog = one_type;
}

abbrev pub provider : Provider
provider = record {
  cluster_id = pos 5;
  cluster_tier = standard;
  region = codes "us-ord";
  create_deadline = 100;
  tag_verification_timeout = 20;
  retry_delay = 5;
}

abbrev pub claim : NodeClaim
claim = record {
  name = codes "web-1";
  labels = (node_pool_label_key, codes "web") ∷ [];
  annotations = [];
  taints = [];
  node_class_ref = some (codes "default");
  provider_id = [];
  node_name = [];
  deleted = false;
}

abbrev pub node_class : NodeClass
node_class = record {
  name = codes "default";
  annotations = [];
  tags = codes "team=web" ∷ [];
  lke_k8s_version = none;
  generation = 1;
  deleted = false;
}

abbrev pub web_tags : Dict Text
web_tags = (node_pool_label_key, codes "web") ∷ (label_lke_managed, codes "true") ∷ []

abbrev pub node : ℤ → PoolNode
node id = record { id = codes "4-a"; instance_id = id }

-- a pool of Karpenter's with these nodes
abbrev pub web_pool : List PoolNode → NodePool
web_pool nodes = record {
  id = pos 4;
  count = length nodes;
  type = codes "g6-standard-2";
  tags = codes "karpenter.sh/nodepool=web" ∷ codes "karpenter.k8s.linode/lke-managed=true" ∷ [];
  k8s_version = none;
  linodes = nodes;
}

abbrev pub machine : ℤ → LinodeInstance
machine id = record created_instance { id = id }

-- the provider when it starts
abbrev pub started : Cluster → State cluster
started w = record {
  world = w;
  events = [];
  node_cache = [];
  delete_backoff = new_backoff_tracker [] 10 80;
  pool_backoff = new_backoff_tracker [] 10 80;
  unavailable_offerings = record {
    offering_cache = [];
    offering_seq_num = [];
    region_cache = [];
    region_seq_num = 0;
  };
  created_pool = false;
  scaled_once = false;
}

abbrev pub empty_cluster : State cluster
empty_cluster = started (record { time = 0; instances = []; pools = [] })

-- a pool with two nodes, of which none is claimed
abbrev pub two_nodes : State cluster
two_nodes = started (record {
  time = 0;
  instances = machine (pos 70) ∷ machine (pos 71) ∷ [];
  pools = web_pool (node (pos 70) ∷ node (pos 71) ∷ []) ∷ [];
})
