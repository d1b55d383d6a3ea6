-- ===== src/Lib.antt =====
-- The CloudStack CSI driver: its controller and node services, the locks that they share, and the
-- connectors to CloudStack that they call.
--
-- The driver answers CSI calls over gRPC. The controller service (pkg/driver/controller.go) calls
-- CloudStack through an interface (pkg/cloud/cloud.go) that has two implementations, a client of
-- the API (pkg/cloud) and a fake over maps (pkg/cloud/fake); the node service (pkg/driver/node.go)
-- calls the same interface and a mounter (pkg/mount). Both keep volumes locked while they work on
-- them (pkg/util/idlocker.go). cmd/cloudstack-csi-driver/main.go chooses the mode, and so which of
-- the services run (pkg/driver/driver.go). A second program (cmd/cloudstack-csi-sc-syncer with
-- pkg/syncer) makes Kubernetes storage classes for the disk offerings of CloudStack.
--
-- A handler is a function from a state to an answer or a failure, with a state in both cases
-- (Prelude/Prog.antt): a gRPC code, without its message, or a run-time panic. The state is that of
-- the server with that of the world behind the interface, so that each call of the interface is a
-- step of the state, also where it fails. Log lines and messages are left out. int64 is a signed
-- integer with its wrap-around written out (Prelude/Int.antt). Maps are association lists
-- (Prelude/Maps.antt). strconv.Itoa and Atoi are written out in Prelude/Strconv.antt; the fuel of
-- the first is above its number, which falls with each digit. What is used of Go's strings, bufio
-- and path/filepath is in Prelude/Strings.antt and Prelude/Paths.antt.
--
--   Util/Gb.antt               pkg/util/gb.go
--   Util/VolumeLocks.antt      pkg/util/idlocker.go, VolumeLocks; Exclusion: goroutines as steps
--   Util/OperationLock.antt    pkg/util/idlocker.go, OperationLock; Counters: the counters of one
--                              volume, which the five maps stand for; Exclusion, Sharing: sequences
--                              of calls in the order in which the mutex admits them
--   Util/Endpoint.antt         pkg/util/endpoint.go
--   Cloud.antt                 pkg/cloud/cloud.go
--   Cloud/Client.antt          volumes.go, snapshots.go, vms.go, node.go, zones.go of pkg/cloud, over
--                              the SDK (Client/Sdk.antt)
--   Cloud/Metadata.antt        pkg/cloud/metadata.go; Cloud/Config.antt: pkg/cloud/config.go
--   Cloud/Fake.antt            pkg/cloud/fake/fake.go; Reach, Reachable: the states that its
--                              operations lead to
--   Mount.antt                 the interface of pkg/mount/mount.go; Mount/Os.antt: what it calls
--   Mount/*.antt               its methods: Device and Search (the device of a volume), Files, System
--                              (all of them); Fake: pkg/mount/fake.go; Mounts: what the calls of Os are
--                              documented to do to the mounts
--   Driver/Csi.antt            the CSI messages, pkg/driver/constants.go, isValidVolumeCapabilities
--   Driver/Topology.antt       pkg/driver/topology.go
--   Driver/Sizes.antt          determineSize; Driver/Suitable.antt: checkVolumeSuitable
--   Driver/Controller.antt     controllerServer, its calls and its locks
--   Driver/Controller/*.antt   its handlers: Create, Volumes, Publish, Snapshots; Locks and
--                              OperationLocks are about the locks that a handler leaves;
--                              Create/Existing, Twice and Lifecycle, Volumes/Grown and
--                              Snapshots/Twice are about the handlers on the fake connector
--   Driver/Node.antt           nodeServer; Driver/Node/*.antt: its handlers (Stage, Publish, Expand),
--                              mount options and locks; Table: the mounts of a machine, which
--                              Stage/Mounts and Publish/Mounts are about; Machine: the table of the
--                              mounter of pkg/mount; Lifecycle: both together
--   Driver/Options.antt        pkg/driver/options.go; Driver/Service.antt: driver.go, identity.go
--   Driver/Version.antt        pkg/driver/version.go
--   Syncer/*.antt              pkg/syncer: name.go (Names), run.go (Classes, Run), syncer.go (Labels),
--                              error.go (Errors); Run/Store: the calls of Kubernetes as a store of
--                              classes, on which Run/Settles, Frame, Loop and Converges stand;
--                              Run/Stale: the versions of the classes
--   Cmd/*.antt                 the two main functions
--   Tests.antt                 concrete data, and runs on it
--
-- Code that is not part of the repository is a parameter: the string sets of k8s.io/apimachinery
-- (Sets, with their documented laws), the parsing of time stamps (Times), the identifiers and the
-- order of a map in the fake connector (Supply), the CloudStack SDK (Api), the files of cloud-init
-- and Ignition with encoding/json (Machine), the Kubernetes client, its label functions and the
-- removal of accents (Cluster, Kube), the kernel, mount-utils and the other programs that the mounter runs
-- (Os), net/url and the socket file (Host), net and grpc (Grpc), pflag and gcfg (Process). The
-- handlers of the node take any mounter (Mounter), with os.Remove. A random choice of a zone is a
-- number that is handed in.
--
-- What is documented of that code stands in records that the theorems take as premises: of the mounts
-- of a machine in Mount/Mounts.antt (the entries of /proc/mounts at each mount point, with the device
-- that a bind mount shows, symbolic links resolved, and no propagation), of the storage classes in
-- Syncer/Run/Store.antt and, for their versions, in Syncer/Run/Stale.antt. The calls may fail, and the
-- records describe them where they do not.
--
-- A client that pages through a list of snapshots runs on fuel: one call more than the list has
-- entries is enough.
--
-- The retries of the search for a device are at most the 20 steps of its back-off; how many there
-- are before the context ends is a field of Os.
--
-- Not modelled: the version that the syncer prints, and the set-up of logs.
pub mod Prelude
pub mod Util
pub mod Cloud
pub mod Mount
pub mod Driver
pub mod Syncer
pub mod Cmd
pub mod Tests
