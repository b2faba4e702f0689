-- ===== src/Lib.antt =====
-- cluster-fabric-operator: a model of the operator, with its proofs.
--
-- The operator deploys a Submariner broker on one cluster and joins clusters to it. The reconciler
-- (controllers/fabric_controller.go) runs the deployment of the broker (controllers/deploy_broker.go)
-- and the joining of a cluster (controllers/join_broker.go). With globalnet, every joining cluster is
-- given a CIDR out of the broker's range; the CIDRs given stand in a config map of the broker, which
-- all clusters read and update.
--
-- Base: helpers; Base/Texts and Base/Bytes have the operations of Go's strings, over lists of bytes;
--   Base/Action has calls that change a state, and the loops of the Kubernetes libraries.
-- Net: ParseCIDR, Contains and String of Go's net package, as far as the code uses them: IPv4 only, an
--   address as its four bytes, a network as its first address and the length of its mask.
-- Globalnet: controllers/discovery/globalnet/globalnet.go. Sizes has nextPowerOf2 and
--   GetValidClusterSize, in 32-bit arithmetic; Allocate has allocateByCidr, allocateByClusterSize and
--   AllocateGlobalCIDR, with the package's variable passed as state; Assign has the validation,
--   the overlap checks and AssignGlobalnetIPs. A Go map is the list of its entries, in the order in
--   which it is walked; the theorems hold for every order.
-- Broker: controllers/ensures/broker. GlobalnetMap has the config map of the CIDRs
--   (globalcidr_cm.go) and GetGlobalNetworks, which reads it; Separation and Stored say what a sound
--   map is; Rbac has the accounts, roles and bindings (rbac.go, ensure.go), Token the wait for a
--   token, Ensure the whole set-up; Info and Codec have brokerinfo_cm.go, and Existing the validation of
--   an existing map.
-- Join: controllers/join_broker.go. Allocation has one round of AllocateAndUpdateGlobalCIDRConfigMap,
--   from the answer to its read to the update that it sends; Allocation/Clients has clusters that do
--   so at the same time; Settings and Specs have the checks and conversions of the settings, Gateway
--   the choice and the labelling of the gateway node; Sequence has JoinSubmarinerCluster, over a record
--   of the parts in other packages.
-- Requirements: controllers/checker/version.go.
-- Operator: controllers/ensures/operator, and the CRDs of controllers/ensures/{gateway,lighthouse}: the
--   installation of the Submariner operator (Install), the security constraints (Scc), the deployment
--   and the wait for it (Deployment), and the custom resources (Resource, for Submariner, which is
--   deleted and made anew, and Custom, for the broker and service discovery).
-- StringSet: controllers/stringset/stringset.go, with the locks of the synchronized variant.
-- Discovery: controllers/discovery/network: the order in which plugins are asked, the completion by the
--   generic discovery, and the search for a parameter in the commands of pods; ServiceRange has the
--   range of the services out of an error message, Plugins what each plugin reads, and Cluster the
--   discovery over all of them.
-- Controller: the reconciler and the deployment of the broker.
-- Examples: the theorems at concrete values.
--
-- Errors are values (Base/Results), one constructor for each message; what a message quotes, and the
-- log, are left out. A panic is a plan of its own in Join/Allocation, and no result in Join/Settings
-- and Join/Specs. The allocator loops, in the model by fuel that counts its rounds: every round
-- moves on by at least one address of the range, so as many rounds as the range has addresses are
-- enough, and the theorems on it ask for that many and show that it then ends. They leave out ranges
-- that contain 0.0.0.0: the search can come back to that address, and begin anew.
--
-- Parameters: encoding/json (the records Json and Codec, with the laws JsonLaws and CodecLaws), base64,
-- strconv.Atoi, the YAML decoder, and the API server (with the laws ServerLaws, in Broker/Rbac/Present
-- on the presence of objects by kind and name, and in Operator/Named with their contents; CreateLaws in
-- Broker/Rbac/Bound; and SccLaws; in Join/Allocation/Clients the versions by which it refuses an update
-- that was planned from an older map). In Operator/Named the manifests' names are told apart by
-- NamesApart. retry.RetryOnConflict, wait.ExponentialBackoff and wait.PollImmediate
-- are the record Loops: a retry goes on after a conflict only, and a poll has a number of rounds, any
-- number in the theorems. In Controller the parts of the deployment that are in other packages are
-- parameters, and so are the installation and the custom resources in Join/Sequence; in
-- Operator/Custom/Written and Join/Sequence/Discovery they are `Ensure`, over ctrl.CreateOrUpdate with
-- the law Writes, and in Join/Sequence/Created that of Operator/Resource.
--
-- Not modelled: the contents of the manifests; the generated code and its generator; the set-up of the
-- manager (main.go); and IPv6.
pub mod Requirements
pub mod Operator
pub mod Base
pub mod Net
pub mod Globalnet
pub mod Broker
pub mod Join
pub mod StringSet
pub mod Discovery
pub mod Controller
pub mod Examples
