-- ===== src/Instances.antt =====
-- The instance provider of pkg/providers/instance/instance.go.
pub mod Failed
pub mod Updates
pub mod Fresh
use karpenter_provider_linod.Controllers.State.{Run, ◌>>=◌, ◌>>◌, ret, throw}
use karpenter_provider_linod.Base.{
  ℕ, Bool, true, Option, none, some, List, [], ◌∷◌, ◌++◌, map, if◌then◌else◌, take, Text, codes,
  text_eq, Dict, ℤ, pos, itoa, atoi,
}
use karpenter_provider_linod.Errors.{
  is_not_found, Err, instance_creation_failed, message, wrap, create_error, insufficient_capacity,
  node_claim_not_found,
}
use karpenter_provider_linod.Cache.{CacheOps}
use karpenter_provider_linod.Objects.{
  node_pool_label_key, label_node_class, NodeClaim, LinodeInstance, Instance,
}
use karpenter_provider_linod.Offerings.{UnavailableOfferings}
use karpenter_provider_linod.Offerings.Update.{update_unavailable_offerings_cache}
use karpenter_provider_linod.Selection.{filter_instance_types, cheapest_instance_type, Catalog}
use karpenter_provider_linod.Tags.{map_to_tag_list, dedupe_tags}
use karpenter_provider_linod.NodeClasses.Types.{PlacementGroup, ClassSpec, LinodeNodeClass}
use karpenter_provider_linod.Lke.State.{Result, ok, err}

-- linodego.InstanceCreateOptions, as far as the provider fills it in
pub record InstanceCreateOptions : Type 0 where
  pub label : Text
  pub region : Text
  pub type : Text
  pub root_pass : Text
  pub authorized_keys : List Text
  pub authorized_users : List Text
  pub image : Text
  pub backups_enabled : Bool
  pub tags : List Text
  pub disk_encryption : Text
  pub swap_size : Option ℤ
  -- 0 if it is not set
  pub firewall_id : ℤ
  pub placement_group : Option PlacementGroup

-- The Linode API and what else the provider calls; what others do meanwhile is in the answers.
pub record Cloud : Type 1 where
  pub World : Type 0
  pub create_instance : InstanceCreateOptions → World → Result LinodeInstance × World
  pub get_instance : ℤ → World → Result LinodeInstance × World
  -- ListInstances with a filter on the texts that the tags are to contain
  pub list_instances : List Text → World → Result (List LinodeInstance) × World
  pub delete_instance : ℤ → World → Result (Unit {0}) × World
  pub create_tag : ℤ → Text → World → Result (Unit {0}) × World
  pub update_instance : ℤ → List Text → World → Result LinodeInstance × World
  -- time.Now(), time.Sleep, uuid.NewString
  pub now : World → ℕ
  pub sleep : ℕ → World → World
  pub uuid : World → Text × World
  pub InstanceCache : Type 0
  pub instance_ops : CacheOps InstanceCache Instance
  pub MarkCache : Type 0
  pub mark_ops : CacheOps MarkCache (Unit {0})
  pub catalog : Catalog

-- the error of strconv.Atoi
abbrev pub invalid_id : Err
invalid_id = wrap message

-- NewInstance
unfoldable pub new_instance : LinodeInstance → Instance
new_instance i = record {
  id = i.id;
  created = i.created;
  region = i.region;
  image = i.image;
  type = i.type;
  status = i.status;
  tags = i.tags;
}

-- defaultImage
abbrev pub default_image : Text
default_image = codes "linode/ubuntu22.04"

abbrev pub with_default_image : ClassSpec → ClassSpec
with_default_image spec = record spec {
  image = if text_eq spec.image [] then default_image else spec.image;
}

-- the node class with its image set
abbrev pub imaged : LinodeNodeClass → LinodeNodeClass
imaged node_class = record node_class { spec = with_default_image node_class.spec }

abbrev id_or_zero : Option ℤ → ℤ
id_or_zero none = pos 0
id_or_zero (some id) = id

-- linodego.InstanceDeleting
abbrev pub instance_deleting : Text
instance_deleting = codes "deleting"

module _ (c : Cloud) where
  -- DefaultProvider and the world; the unavailable offerings are shared with the offering provider
  pub record CloudState : Type 0 where
    pub world : c.World
    pub cache : c.InstanceCache
    pub marks : UnavailableOfferings c.MarkCache

  abbrev pub calling : {A : Type 0} → (c.World → A × c.World) → CloudState → A × CloudState
  calling f s = let (a, w) = f s.world in (a, record s { world = w })

  abbrev pub Act : Type 0 → Type 0
  Act A = Run CloudState A

  abbrev cache_instance : Text → Instance → Act (Unit {0})
  cache_instance id i s =
      (ok tt, record s { cache = c.instance_ops.set_default s.cache (c.now s.world) id i })

  abbrev pub drop_instance : Text → Act (Unit {0})
  drop_instance id s = (ok tt, record s { cache = c.instance_ops.delete_key s.cache id })

  -- Create changes the node class that it is given: the result has the node class as it leaves it
  abbrev pub Making : Type 0
  Making = CloudState → (Result Instance × LinodeNodeClass) × CloudState

  abbrev refused : LinodeNodeClass → Making
  refused node_class s = ((err (insufficient_capacity message), node_class), s)

  -- the instance creation options, with two new identifiers
  unfoldable pub create_options :
      Text → LinodeNodeClass → NodeClaim → Dict Text → Text → Text → Text → InstanceCreateOptions
  unfolding dedupe_tags map_to_tag_list text_eq
  create_options region node_class node_claim tags type label_id root_pass = record {
    label = node_claim.name ++ b'-' ∷ take 8 label_id;
    region = region;
    type = type;
    root_pass = root_pass;
    authorized_keys = node_class.spec.authorized_keys;
    authorized_users = node_class.spec.authorized_users;
    image = node_class.spec.image;
    backups_enabled = node_class.spec.backups_enabled;
    tags = dedupe_tags (node_class.meta.tags ++ map_to_tag_list tags);
    disk_encryption = node_class.spec.disk_encryption;
    swap_size = node_class.spec.swap_size;
    firewall_id = id_or_zero node_class.spec.firewall_id;
    placement_group = node_class.spec.placement_group;
  }

  abbrev error_of : {A : Type 0} → Result A → Option Err
  error_of (ok a) = none
  error_of (err x) = some x

  -- UpdateUnavailableOfferingsCache on the answer of CreateInstance
  unfoldable pub note_answer : Text → Text → Result LinodeInstance → CloudState → CloudState
  unfolding update_unavailable_offerings_cache
  note_answer region type answer s = record s {
    marks =
        update_unavailable_offerings_cache c.mark_ops (error_of answer) region type (c.now s.world)
          s.marks;
  }

  abbrev created : Result LinodeInstance → Result Instance
  created (ok i) = ok (new_instance i)
  created (err x) = err (create_error instance_creation_failed x)

  unfoldable pub create_as : Text → LinodeNodeClass → NodeClaim → Dict Text → Text → Making
  unfolding new_instance create_options note_answer
  create_as region node_class node_claim tags type s =
      let (label_id, t) = calling c.uuid s in
      let (root_pass, u) = calling c.uuid t in
      let (answer, v) =
        calling
          (c.create_instance
            (create_options region (imaged node_class) node_claim tags type label_id root_pass))
          u in
      ((created answer, imaged node_class), note_answer region type answer v)

  abbrev pub create_cheapest :
      Text → LinodeNodeClass → NodeClaim → Dict Text → Option c.catalog.InstanceType → Making
  create_cheapest region node_class node_claim tags none = refused node_class
  create_cheapest region node_class node_claim tags (some cheapest) =
      create_as region node_class node_claim tags (c.catalog.name cheapest)

  abbrev pub create_kept :
      Text → LinodeNodeClass → NodeClaim → Dict Text → Option (List c.catalog.InstanceType) → Making
  create_kept region node_class node_claim tags none = refused node_class
  create_kept region node_class node_claim tags (some kept) =
      create_cheapest region node_class node_claim tags (cheapest_instance_type c.catalog kept)

  -- Create on the provider of a region
  unfoldable pub create_linode :
      Text → LinodeNodeClass → NodeClaim → Dict Text → List c.catalog.InstanceType → Making
  unfolding filter_instance_types cheapest_instance_type create_as
  create_linode region node_class node_claim tags types =
      create_kept region node_class node_claim tags
        (filter_instance_types c.catalog node_claim types)

  -- what Get does with the answer
  unfoldable pub judge_found : Text → Result LinodeInstance → Act Instance
  unfolding is_not_found new_instance
  judge_found id (ok i) = do cache_instance id (new_instance i); ret (new_instance i)
  judge_found id (err x) =
      if is_not_found x
      then (do drop_instance id; throw (node_claim_not_found x))
      else throw (wrap x)

  unfoldable pub fetch : Text → Option ℤ → Act Instance
  unfolding judge_found
  fetch id none = throw invalid_id
  fetch id (some n) = λ s. let (answer, t) = calling (c.get_instance n) s in judge_found id answer t

  abbrev or_fetch : Text → Option Instance → Act Instance
  or_fetch id none = fetch id (atoi id)
  or_fetch id (some i) = ret i

  -- Get; the flag is the option SkipCache
  unfoldable pub get_linode : Text → Bool → Act Instance
  unfolding fetch atoi
  get_linode id skip_cache = λ s.
      if skip_cache
      then fetch id (atoi id) s
      else or_fetch id (c.instance_ops.get s.cache (c.now s.world) id) s

  unfoldable pub cache_all : List Instance → Act (Unit {0})
  unfolding itoa
  cache_all [] = ret tt
  cache_all (i ∷ is) = do cache_instance (itoa i.id) i; cache_all is

  -- List; no instances is no error in the end
  unfoldable pub list_all : Act (List Instance)
  unfolding new_instance cache_all
  list_all = λ s.
      let (answer, t) =
        calling (c.list_instances (node_pool_label_key ∷ label_node_class ∷ [])) s in
      elim answer [
        | err x ↦ (err (wrap x), t)
        | ok found ↦ (do cache_all (map new_instance found); ret (map new_instance found)) t
      ]

  abbrev delete_found : Text → Instance → Act (Unit {0})
  delete_found id i =
      if text_eq i.status instance_deleting
      then ret tt
      else elim (atoi id) [ none ↦ throw invalid_id | some n ↦ calling (c.delete_instance n) ]

  -- Delete
  unfoldable pub delete_linode : Text → Act (Unit {0})
  unfolding get_linode text_eq atoi
  delete_linode id = do out ← get_linode id true; delete_found id out
