-- ===== src/Lib.antt =====
-- ofcir hands out hosts to CI jobs. Each host is a custom resource, a CIResource, of a pool, a
-- CIPool; a pool names a provider, a cloud or a lab, that makes, cleans and releases the hosts.
-- The program has two controllers and an HTTP server, which meet in the objects of the cluster
-- alone. The server writes the state that is asked of a resource; the controller of resources
-- moves the resource to it through a state machine that calls the provider; the controller of
-- pools makes and evicts resources until a pool has its size.
--
-- The files, and the code that each models:
-- - Api: api/v1, the custom resources, their states and labels. A Go string type with constants is
--   a data type with one constructor per constant and one for every other text. A map of labels is
--   an association list, and none is a nil map.
-- - Provider: pkg/providers/provider.go, errors.go and providersFactory.go, the interface of a
--   provider and the choice of one. The factories are a parameter of the choice.
-- - Fsm: controllers/ciresource_fsm.go. `Fsm.Machine` has the fields of `CIResourceFSM` that a run
--   changes, the resource among them, and `Transition`, `State`, `BeforeAnyState`, `TriggerEvent`
--   and `UpdateResourceOnly`; `Fsm.Handlers` has `NewCIResourceFSM` and a function for each of its
--   handlers; `Fsm.Process` has `Process`. The other files of the folder hold proofs.
-- - Kube and Resource: controllers/ciresource_controller.go. `Kube.Client` is the client of the
--   cluster, a parameter, each call a step on a state `C`, of which a proof knows what the hypotheses
--   of its theorem say.
-- - Pool: controllers/cipool_controller.go, the pieces in `Pool`, `manageCIResourcesFor` and
--   `Reconcile` in `Pool.Control`.
-- - Server: pkg/server and pkg/utils. `Server.Clientset` has the calls of the cluster, whose REST
--   client `Rest` is a parameter; `Server.Access` the check of tokens; `Server.Acquire` and
--   `Server.Lookup` the three commands; `Server.Routes` the routes. `Server.Races` has the runs in
--   which requests and controllers write to one resource in any order. `Server.Setup` has `Init` and
--   `Run`, `NewForConfig` of pkg/server/clientset/v1/api.go and cmd/ofcir-api/main.go, on the calls
--   of client-go and net/http, which are a parameter.
-- - Manager: main.go, the process of the two controllers, and their `SetupWithManager`, on the calls
--   of controller-runtime, which are a parameter. An error that ends the process is an error of the
--   function, and `exit_code` is the status of the process.
-- - Scenario: pkg/reconcilertest/scenario.go, the builders of a scenario; `Scenario.Start` has
--   `setStartObj`, `Scenario.Loop` has `Test`. The fake client and the reconciler are a parameter;
--   `Scenario.Reference` has the steps of a test without fuel and counters.
-- - System: the server's commands and the reconciliations of one resource, on the cluster that they
--   share.
-- - Backends: pkg/providers. `Backends.Dummy` has dummy.go on the package's variables as a state;
--   `Backends.Aws` the handler of aws.go, on the calls of EC2, which are a parameter;
--   `Backends.AwsProvider` its provider; `Backends.Equinix` equinix.go on the calls of packngo;
--   `Backends.Libvirt` the documents of libvirt.go and the calls of libvirt, and
--   `Backends.LibvirtProvider` its functions; `Backends.Ironic` the clients of ironic.go and
--   `UpdateClient`, `Backends.IronicNodes` its `deployNode` and `selectNode`, and
--   `Backends.IronicProvider` its other methods, on the calls of gophercloud; `Backends.IbmCloud`
--   the orders of ibmcloud.go, and `Backends.IbmCloudProvider` its methods, on the calls of
--   softlayer-go; `Backends.Ports` has `IsPortOpen` of pkg/utils. The visits of a Go map have an
--   order that is a parameter, and `json.Unmarshal` of a pool's secret is another. The other files
--   of the folder hold proofs.
-- - Prelude: Go's integers and texts, lists, a stable sort, and effects.
-- - Examples: concrete clusters and providers, and the theorems at them.
--
-- Code that changes a state and may fail is a function of `Exec S A`: from a state to an outcome
-- and a state. An outcome is a value, an error or a panic, which stands for the dereference of a
-- nil pointer. An error keeps its format and the error it wraps, so that `errors.As` can look
-- through it. Go's `int` is an integer whose sums wrap at 64 bits. A resource that functions share
-- through a pointer is a field of the state that they pass on. Time is a number of nanoseconds.
--
-- Fuel: the loop of `manageCIResourcesFor` that makes resources runs on the number of resources
-- that are missing, which is how often the loop's condition can hold. The digits of a number are
-- printed on one round more than the number, which is more than it has digits. The loop of
-- `Test` runs on 20 rounds for each handler, as its counter ends it at the 20th. Every other loop
-- is structural recursion.
--
-- Not modelled: log lines, the parsing of flags, and generated code (the deep copies of
-- api/v1/zz_generated.deepcopy.go, the mock of the AWS client in pkg/providers/mock_aws.go, and the
-- registration in api/v1/groupversion_info.go). What a REST call, a call of a cloud or a call of a
-- library does is a parameter; a theorem that needs something of it names it as a hypothesis.
pub mod Prelude
pub mod Api
pub mod Provider
pub mod Fsm
pub mod Kube
pub mod Resource
pub mod Pool
pub mod Server
pub mod Backends
pub mod Manager
pub mod Scenario
pub mod System
pub mod Examples
