-- ===== src/Lib.antt =====
-- A model of the node wrapper of kruise-agents-nfs-csi, which mounts NFS volumes into running pods
-- on request and mounts them again when a container restarts.
--
-- A request comes over a Unix socket (internal/wrapper/server.go). The wrapper asks the API server
-- who the token belongs to, reads the pod and the volume, checks that the one may use the other
-- (internal/wrapper/authz.go, internal/wrapper/rootauth.go, internal/security), writes the intent to
-- a directory (internal/wrapper/state.go) and asks the node for the mount (internal/node). The
-- reconciler (internal/wrapper/reconciler.go) follows the pods of the node through an informer
-- (internal/kube/informer.go) and repeats or drops the stored intents.
--
-- Files:
--   Prelude, Go: shared helpers, and what the source uses of Go: byte strings, strings.Split and
--     Join, path.Clean, maps, error chains, and code that changes a state and may fail (Go.Exec).
--   Api, Kube: the types of internal/api/types.go and internal/kube/types.go. Kube.Informer is the
--     cache transform, Kube.Client the calls of internal/kube/client.go.
--   Config: internal/config/config.go, with Load (the environment), Modes (file modes) and Flags
--     (bindWrapperFlags of cmd/wrapper/main.go).
--   Security: ValidateTargetPath and ValidateSourceSubPath.
--   Node: internal/node/types.go, NfsPath (internal/node/nfspath.go), and the Linux mounter of
--     internal/node/mounter_linux.go: Segments (sourceSubPathSegments), MountInfo (isMountPoint and
--     mountPointsUnderRoot), Process (findContainerPID), System (the thread and the kernel's calls),
--     Tree (openDirectoryNoFollow), Namespaces (moveMountIntoContainerNamespace and its like), Staging
--     (mountNFS, cleanupStagingPath, CleanupStagingRoot), Linux (Mount, Unmount, IsMounted), and
--     Linux.Interface, which makes of it the Mounter that the server calls.
--   Client: mounter/client.go, with Token and Served (the client against the wrapper's mux), and
--     Publish and Command for cmd/mounter/main.go.
--   Wrapper.Authz, Wrapper.RootAuth: the checks. Wrapper.Desired: intents, keys, and the interface
--     of the store with its laws. Wrapper.State: the file store that keeps them.
--   Wrapper.Server: Base (the server's parts), Admission (normalizeMountRequest to
--     authorizedMountPlan), Mount, Unmount, Http (the handlers and the mux), Guards (what runs before
--     a change).
--   Wrapper.Reconciler: reconcileMountForPod and handleReconcileResult, with Sweeps for snapshots and
--     events, Retries for the queue of retries, whose steps are single accesses to the marks or to
--     the channel, and Renewed for the export-root policy over time.
--   Scenarios: concrete pods, requests and stores.
--
-- A Go string is the list of its bytes. An error keeps its chain of sentinels, and its text without
-- the values that are formatted into it. The server's state is a record of the store's state and
-- the node's state, the mounter's that of one thread and of the kernel; an operation returns a
-- result and the new state, so what was changed before an error stays. The part of an operation
-- under its target's lock is one step. Every loop of the modelled code runs over a list. Only
-- Go.Decimal.decimal has fuel: 19, the number of digits of 2^63, which is more than any int.
--
-- Parameters: the API server's answers, the node's mounts (the Mounter interface), the kernel's calls,
-- the directory's system calls, JSON, base64 and protobuf, SHA-256, the environment, durations, the
-- client's socket, and reading of files. What is assumed of them is written at each theorem: the laws
-- of the store; of the kernel that descriptor numbers are fresh and that
-- setns enters what it is given; of net/http that it sends printable headers; of JSON that it gives
-- back the one request and the one result that are exchanged, and that they are within 1 MiB.
--
-- Not modelled: NewInClusterClient of internal/kube/client.go, the flags that cobra binds, listenUnix and
-- the main functions, the mounter's locks by staging path, logs, timeouts and contexts, and
-- internal/node/mounter_unsupported.go, which only refuses.
pub mod Prelude
pub mod Go
pub mod Security
pub mod Node
pub mod Api
pub mod Kube
pub mod Wrapper
pub mod Client
pub mod Config
pub mod Scenarios
