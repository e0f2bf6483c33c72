-- ===== src/Lib.antt =====
-- nanokube runs the pods of a Kubernetes node on a container runtime such as Docker. The kubelet
-- calls a driver (pkg/driver), which keeps what it knows in the tags of the runtime's containers,
-- gives each sandbox a network of its own, copies the containers' output into log files and
-- proxies attached streams; nodes find each other through a discovery service. Paths are from the
-- repository's root.
--
-- Prelude: Boolean tests on numbers, lists, Go strings (lists of code points, or of bytes where the
--   source walks bytes), Go maps (association lists) and results.
-- Network: pkg/nanokube/network.go. Network.Address has the loops over the bytes of an address (the
--   carry of Default and FromConfig, the pinned gateway); Network.Pool has NetworkImpl and its
--   allocated networks: Default, FromConfig, FromStatus, FromID, FromUID, FromIP, WithSandboxUID,
--   Deallocate. The runtime's network service is the parameter `Service`, with a state of its own.
--   FromConfig's flag says that the pod comes from a file. The order of the table stands for the
--   order in which sync.Map.Range visits it.
-- Tags: pkg/nanokube/tags.go. Tags.Label is `normalize`; Tags.Decimal prints and reads the attempt;
--   Tags.Builder is TagBuilder; its codec (JSON in base64) is a parameter. `container_builder`
--   and `hydrate` are how pkg/driver/docker/docker.go writes and reads a container's tags.
-- Docker: pkg/driver/docker/docker.go. Docker.Create is CreateContainer: the user, the configs, and
--   the attempts while a name is in use; Docker.Listing is ListContainers with matchLabels, what
--   ListPodSandbox tells of a sandbox, and ContainerStatus; Docker.Exec is ExecSync; Docker.Images
--   is ImageStatus, ListImages and ImageFsInfo. In Docker.Sandbox, Status is PodSandboxStatus, Plan
--   what RunPodSandbox asks the runtime for, Life the start, stop and removal of containers and
--   sandboxes with the driver's log streams and its table of networks, and Run is RunPodSandbox with
--   PullImage. The runtime's client is a parameter, with a state of its own; `Holds` and `Adds` say
--   what the proofs ask of it. Docker.Volumes is ClaimVolume, CreateVolume, DeleteVolume and
--   ReleaseVolume, with the cluster's and the runtime's clients as a parameter. Docker.Networks is
--   GetNetwork, CreateNetwork and RemoveNetwork; its `network_service` fills the `Service` of
--   Network.Pool.
-- Host: pkg/nanokube/host.go: the mounters, their two tables, and CanSupport. The driver that they
--   call is a parameter, which `volume_driver` fills with Docker.Volumes; a panic is a result, also
--   that of reading the type of a local source that names none.
-- Backend: pkg/backend.go. Backend.Probes is rewriteProbe, Backend.Admit is Admit, on the parts of a
--   pod that it reads and writes; the marshalling of host aliases and the steps of a path's
--   expansion are parameters. What it writes, Docker.Sandbox.Plan and Docker.Create read.
--   Backend.Resources is PrepareDynamicResources and UnprepareDynamicResources, on Network.Pool;
--   Backend.Streams is PreStartContainer and PostStopContainer with the driver's LogStream, on the
--   log streams that both keep.
-- Logs: pkg/nanokube/log.go and the log source of pkg/driver/docker/docker.go. Logs.Stream is
--   LogStreamImpl with its taps, Start, Stop, Destroy, and ReopenContainerLog of the driver, as
--   functions on a state; `step` runs one call, or the return of a pump of one of the runs. Logs.Pump is `pump`, which
--   reads what Logs.Runtime, the driver's demux goroutine, writes.
-- Streams: pkg/nanokube/streams.go. Streams.Frames has the runtime's wire format, which Logs.Runtime
--   uses too; Streams.Demux is the output goroutine of ProxyStream, with the client's writers as a
--   parameter; Streams.Resizer is resizerImpl and the goroutine that feeds it.
-- Storage: pkg/storage. Storage.Pipe is bidiPipe of stream.go, the two channels between the storage
--   client and the embedded server, as a step relation over the calls of both ends. Storage.Client
--   is client.go, the gates of the client and the methods behind them. Storage.State,
--   Storage.Backends, Storage.Dispatch and Storage.Peers are storage.go: what is made once, kine on
--   SQLite and the embedded etcd, the client by the scheme of the transport with the hook of the API
--   server's factory, and the handlers for etcd's peers with the REST options; etcd, kine, the
--   system and v3rpc are a parameter. A call waits, panics or comes to a value (Storage.Flow).
-- Process: pkg/nanokube.go, pkg/command.go, pkg/nanokube/errors.go and pkg/nanokube/options.go.
--   Process.Cancel is Cancel and Errors, Process.Identity the machine id, the certificate with its
--   key and the bundle that the process keeps in its data directory, Process.Gates what is given
--   once and waited for, with the node's events and the backends. Process.Drain is drainNode,
--   Process.Access updateToken and Process.Roles updateRBAC, with the answers of the API server as
--   a parameter; Process.Options is the errors and the paths of the options.
-- Discovery: pkg/discovery/discovery.go. Discovery.Retry is `do` with `await` and `retryAfter`, on a
--   list of what the service and the context do in each turn; Discovery.Seed is `Seed`;
--   Discovery.Peers is WithTunnel, WithoutTunnel and Peers.
--
-- Loops that take bytes off a buffer or a connection run on fuel: one more than the number of bytes,
-- of which each turn takes one at least (eight for a frame), and running out of it is a result of
-- its own. Bytes are numbers below 256, a frame's size is below 2^32, addresses wrap at 2^32,
-- an attempt is a 32-bit number and a duration a 64-bit one in two's complement, with the
-- wrapping written out. CreateContainer's loop runs on fuel above the number of names in use. A call
-- on the table of networks, on a log stream or of Seed is taken as a whole. The source locks for it, but in Destroy of a log
-- stream: a Start that runs while Destroy does is left out.
--
-- Not modelled: the HTTP transport, etcd, the kubelet and the runtime's client, which the source
-- calls; HTTPLog and klogz, which log; the raw copy of a terminal's stream, which is io.Copy; the
-- driver's other requests, the rest of the kubelet's backend (pkg/backend.go), the host's calls of
-- the system, the kubeconfig that the discovery service keeps, the client wrappers
-- (pkg/nanokube/client.go), and the flags and hooks that start the components (pkg/command.go).
pub mod Backend
pub mod Discovery
pub mod Docker
pub mod Host
pub mod Logs
pub mod Network
pub mod Prelude
pub mod Process
pub mod Storage
pub mod Streams
pub mod Tags
