-- ===== src/Lib.antt =====
-- A model of the Karpenter provider for Linode and proofs about it.
--
-- The program adds nodes to a Kubernetes cluster on Linode, and removes them, as Karpenter asks. In
-- LKE mode each node claim becomes an instance of a node pool: Create finds or creates the pool of the
-- claim, takes an instance of it that no other claim has, and marks it with the claim's tag; if there
-- is none it scales the pool by one node and tries again until a deadline. Delete removes the
-- instance's node, or the whole pool when the node is its last. In instance mode the instance provider
-- creates and deletes the instances themselves. The instance type provider says which plans there are,
-- what they offer and where they are available; a failed creation marks an offering as unavailable,
-- which the offering provider leaves out from then on. The cloud provider stands between Karpenter and
-- these providers, and the controllers keep node classes, tags and instances in order.
--
-- The files:
--   Base and below: texts as lists of bytes, maps as association lists, sorting, integers, Boolean
--     tests over the native numbers.
--   Errors: the errors of the program as values, errors.Is and errors.As, and the tests of
--     pkg/utils/utils.go and pkg/providers/lke/lke.go on them.
--   Tags and below: tag lists and maps, claim tags and the checks of tags of pkg/utils/utils.go, and
--     normalizeTagList of pkg/controllers/nodeclass/inplaceupdate/controller.go.
--   Cache: the expiring cache that the program takes from github.com/patrickmn/go-cache, as a record
--     of operations and a record of laws; Cache/Sample has one that satisfies them.
--   Backoff: BackoffTracker of pkg/utils/utils.go.
--   Offerings: UnavailableOfferings of pkg/cache/unavailableofferings.go.
--   Selection: FilterInstanceTypes and CheapestInstanceType of pkg/utils/utils.go, with
--     pkg/providers/instance/filter/filter.go.
--   Objects: the fields of Kubernetes, Karpenter and Linode objects that the program uses.
--   Lke: the provider of pkg/providers/lke/lke.go. Lke/State has the actions, Lke/Pools, Lke/Claims,
--     Lke/Create, Lke/Delete and Lke/Query the operations, and the modules below each what is proved
--     of them. Lke/Keeps has the rules by which a property of the state is carried through Create, and
--     Lke/Locks the discipline of the pool locks.
--   InstanceTypes: the instance types. InstanceTypes/Offers is the offering provider of
--     pkg/providers/instancetype/offering/offering.go, InstanceTypes/Resolve with Signals, Requirements
--     and Gpus the resolution of pkg/providers/instancetype/types.go, nvidiagpu.go and
--     dynamicresources.go, and InstanceTypes/Store and InstanceTypes/Refresh are the provider of
--     pkg/providers/instancetype/instancetype.go.
--   Instances: the provider of pkg/providers/instance/instance.go.
--   CloudProvider: pkg/cloudprovider/cloudprovider.go.
--   NodeClasses: LinodeNodeClass of pkg/apis/v1alpha1, its validation and its controller
--     (pkg/controllers/nodeclass/validation.go and controller.go).
--   Controllers: the tagging controller (pkg/controllers/nodeclaim/tagging/controller.go), the update
--     in place of tags (pkg/controllers/nodeclass/inplaceupdate/controller.go) and the drift check of
--     pkg/cloudprovider/drift.go; the hash controller (pkg/controllers/nodeclass/hash/controller.go),
--     the garbage collection (pkg/controllers/nodeclaim/garbagecollection/controller.go) and the
--     controllers of pkg/controllers/providers/instancetype. Controllers/State has the runs on what
--     they use of the cluster.
--   Tests: a small cluster and concrete runs on it.
--
-- Code and model. An operation is a function from the state to a result and a state; in the LKE
-- provider the outcome is a result, an error, or `running` when the rounds given to a loop are used
-- up. The API, the cluster, the clock, the context and the caches are fields of a record that each
-- part takes: `Env`, `Cloud`, `Setup`, `Platform`, `Validator` and so on; what others do meanwhile
-- is in their answers. A method `FooBar` of the source is `foo_bar`. Where two parts have a method
-- of the same name the model's says of what it is: Create, Get, List and Delete are `create` and
-- `delete_by_id` in Lke, `create_linode`, `get_linode`, `list_all` and `delete_linode` in
-- Instances, `create_claim`, `get_claim`, `list_claims` and `delete_claim` in CloudProvider, and
-- `list_types` and `get_cached_type` in InstanceTypes. An early return on an error is the `fail` or
-- `throw` of a do block. A deferred call is written at the end. Requests and pool locks of the LKE
-- provider are recorded as events, the latest first. Create of the instance provider sets the image
-- of the node class it is given, so `create_linode` also returns the node class, and `create_claim`
-- hashes that one. Floating-point numbers are not computed with: a price is its bits, and a
-- percentage of a quantity is a parameter.
--
-- Bounds. The loops of Create and verifyTagsApplied end by the clock; the model gives each a number of
-- rounds, `fuel`, as an argument. For verifyTagsApplied one round more than its timeout has retry
-- delays is enough. Sequence numbers are modulo 2 ^ 64.
-- Times are natural numbers of nanoseconds, and identifiers are integers without a bound.
--
-- Not modelled: the texts of messages, logs, events and metrics; more calls of the LKE provider at the
-- same time, and the interleaving of the workers of the garbage collection; the registration of the
-- controllers; the options and the start of the program.
pub mod Base
pub mod Tags
pub mod Errors
pub mod Cache
pub mod Backoff
pub mod Objects
pub mod Offerings
pub mod Selection
pub mod InstanceTypes
pub mod NodeClasses
pub mod Instances
pub mod CloudProvider
pub mod Lke
pub mod Tests
pub mod Controllers
