-- ===== src/Lib.antt =====
-- rcs-ocm-deployer: two controllers and two admission webhooks that deploy a Capp (a container
-- application) from a hub cluster to a managed cluster of Open Cluster Management.
--
-- The program and the files that model it
--
-- - internal/placement (Placement): the placement controller chooses a managed cluster for a Capp,
--   writes it to the status and then, as an annotation, to the Capp. Placement/Adapters has
--   GetPlacementDecisionList, GetDecisionClusterName, UpdateCappDestination and
--   AddCappHasPlacementAnnotation; Placement/Controller has Reconcile, pickDecision and the event
--   filter.
-- - internal/sync (Sync): the sync controller keeps the ManifestWork of a placed Capp in the
--   namespace of its cluster and deletes it with the Capp. Sync/Builders has the Build functions,
--   Sync/Directors the three AssembleManifests with the functions that collect references and
--   users, Sync/Directors/Volumes/References the places of a Capp that name a ConfigMap or a
--   Secret, also those that the code does not read, Sync/Adapters the finalizers, the deletion and the ManifestWorks, Sync/Controller
--   Reconcile, SyncManifestWork and the event filter. Sync/Controller/Cleanup and Ends have the
--   runs of Reconcile for a Capp that is being deleted, repeated until the last, Retried those for
--   a Capp whose ManifestWork the server refuses at first.
-- - internal/webhooks (Webhooks): Webhooks/Common has isSiteValid, getManagedClusters,
--   getRCSConfig, validateLogSpec and findMissingFields, Webhooks/Domain validateDomainName and
--   isDomainNameTaken, Webhooks/Validator the validating webhook, Webhooks/Mutator the mutating
--   one, with the memory of its loop over the containers in Webhooks/Mutator/Memory. Mutator/Again
--   has a second mutation of the same Capp, Webhooks/Verdict the two webhooks one after the other.
-- - api/v1alpha1/rcsconfig_types.go and groupversion_info.go (Api/Workload, Api/Scheme): the types
--   of the RCSConfig, its group and version, and the kinds that its package registers.
-- - internal/utils (Utils): constants, and the test for a placed Capp.
-- - api/v1alpha1/zz_generated.deepcopy.go (Api/DeepCopy): the copies of RCSConfig, RCSConfigList,
--   RCSConfigSpec and RCSConfigStatus; Values has what the copied variables stand for, Fresh and
--   Deep the proofs.
-- - cmd/main.go and the SetupWithManager functions (Manager): the init functions and main, which
--   register the types, the controllers and the webhooks with controller-runtime and start it.
--   Runtime/Setup has the libraries that they call, and a trace of the calls.
-- - System: what the parts are to each other. System/Handover has what the placement controller
--   sends against the event filters of the two controllers, System/Admitted the validating webhook before the placement controller.
--   System/Deploy has a run of the placement controller (Placed) and then one of the sync
--   controller (Synced) on a cluster that nobody else changes (Both). Awaited repeats the runs of
--   the placement controller until its Placement is decided. System/Protected has the turns that
--   both controllers and all others who use the API server take, as a step relation (Turns), and
--   the finalizer of a Capp over them: Updates for the updates of the Capp, Live and Deleted for
--   the two branches of the sync controller, Placing for the end of a run of the placement
--   controller, SyncRun and PlacementRun for whole runs. Others has the turns of the controllers
--   for all Capps, by what a run for one Capp leaves true (Placement/Controller/Confined and
--   Sync/Controller/Confined).
--
-- The model
--
-- Api has the objects with the fields that the code uses, and for a Capp and a ConfigMap those that
-- it passes over in collecting and copying: the types of api/v1alpha1 and those of other packages. Runtime has what the code runs on. A handler is an action on a run, that is on the
-- cluster, the writes sent so far and the events recorded so far; it ends with a value, an error or
-- a panic, and what it wrote before stays written. The API server is a record of operations on an
-- abstract cluster (Runtime/Client), each of which may change it in any way, as other writers do;
-- the theorems hold for every such client unless they ask for a quiet cluster (Runtime/Quiet) or a
-- store of ManifestWorks (Runtime/WorkStore) or of Capps (Runtime/CappStore), or say what others
-- may do and how the server treats the versions of a Capp (Runtime/Shared) and other objects
-- (Runtime/Apart). These laws speak of reads of what is stored; a client that answers from a cache
-- that lags behind does not have them. Runtime/Counted counts the calls. Regular expressions, DNS,
-- the check for qualified names, the collection of field errors, the encoding of objects and the
-- formatting of `%q` are parameters too. Go's loops over slices are structural recursions and need
-- no fuel. Runtime/Requeue repeats the runs for one request on fuel, as the work queue of
-- controller-runtime does; Runtime/Patient, Runtime/Retrying and Runtime/Deciding are servers on
-- which only finitely many calls fail or give nothing, and the number of those gives the fuel that
-- is enough. A Go map is an association list, nil is `none`; where the sharing of maps matters, the
-- maps lie in an explicit memory. A quantity is only copied and is kept as a text; a time in a
-- result is counted in seconds. No arithmetic on machine integers occurs.
--
-- Not modelled: log lines; the queues of controller-runtime beyond that, which call the handlers;
-- what the scheme does with the types that are added to it; the charts and the tests on a live
-- cluster.
--
-- Common has the shared names, Tests an API server in memory and runs at concrete values.
pub mod Common
pub mod Api
pub mod Runtime
pub mod Utils
pub mod Placement
pub mod Sync
pub mod Webhooks
pub mod System
pub mod Manager
pub mod Tests
