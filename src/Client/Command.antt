-- ===== src/Client/Command.antt =====
-- cmd/mounter/main.go: the command around the client. Package cobra parses the arguments and sets the
-- flags; base64, protobuf, and the reading of files are parameters.
use kruise_agents_nfs_csi.Prelude.{
  Bool, true, false, not, ◌||◌, List, [], ◌∷◌, any, ◌==◌, nat_eq, if◌then◌else◌,
}
use kruise_agents_nfs_csi.Go.Text.{Str, codes, str_eq, strs_eq, trim_space}
use kruise_agents_nfs_csi.Go.Errors.{Result, ok, err, text, ◌>>=◌}
use kruise_agents_nfs_csi.Config.{MounterConfig, Duration, nanoseconds, minus_nanoseconds}
use kruise_agents_nfs_csi.Config.Load.{env, default_pod_ns_file}
use kruise_agents_nfs_csi.Api.{MountRequest, version}
use kruise_agents_nfs_csi.Client.Publish.{NodePublishVolumeRequest, apply_decoded}
use kruise_agents_nfs_csi.Client.{ClientConfig, ClientMountRequest, ClientUnmountRequest}

-- operation
pub data Operation : Type 0 where
  operation_mount operation_unmount : Operation

-- commandState
pub record CommandState : Type 0 where
  pub cfg : MounterConfig
  pub request : MountRequest
  pub operation : Operation
  pub encoded_config : Str

-- defaultMountRequest
unfoldable pub default_mount_request : (Str → Str) → MounterConfig → MountRequest
unfolding codes
default_mount_request getenv cfg = record {
  api_version = version;
  driver_name = cfg.driver_name;
  namespace = env getenv (codes "POD_NAMESPACE") [];
  pod_name = env getenv (codes "POD_NAME") [];
  pod_uid = env getenv (codes "POD_UID") [];
  pv_name = [];
  source_sub_path = [];
  target_path = [];
  container_name = env getenv (codes "CONTAINER_NAME") [];
}

-- The state behind the function of a command that is run.
unfoldable pub run_root : List Str → CommandState → Result CommandState
run_root args state =
    if not (args == [])
    then err (text "unexpected arguments")
    else ok (record state { operation = operation_mount })

unfoldable pub run_mount :
    (Str → Result NodePublishVolumeRequest) → List Str → CommandState → Result CommandState
run_mount decode args state =
    if not (args == [])
    then err (text "unexpected mount arguments")
    else if state.encoded_config == []
    then ok (record state { operation = operation_mount })
    else do
      r ← decode state.encoded_config
      request ← apply_decoded true state.request r
      ok (record state { operation = operation_mount; request = request })

unfoldable pub configured_unmount :
    (Str → Result NodePublishVolumeRequest) → CommandState → Result MountRequest
configured_unmount decode state =
    if state.encoded_config == []
    then ok state.request
    else decode state.encoded_config >>= apply_decoded false state.request

unfoldable pub run_unmount :
    (Str → Result NodePublishVolumeRequest) → List Str → CommandState → Result CommandState
run_unmount decode args state =
    if not (args == []) then err (text "unexpected unmount arguments") else do
      request ← configured_unmount decode state
      ok (record state {
        operation = operation_unmount;
        request = record request { source_sub_path = [] };
      })

-- One read of readFirstExistingFile.
unfoldable pub content_of : Result Str → Str
content_of (err e) = []
content_of (ok contents) = trim_space contents

-- readFirstExistingFile: a path that has been seen is passed over
unfoldable pub read_first : (Str → Result Str) → List Str → List Str → Str
read_first read_file seen [] = []
read_first read_file seen (path ∷ paths) =
    let passed = read_first read_file seen paths in
    let rest = read_first read_file (path ∷ seen) paths in
    if path == [] || any (λ other. other == path) seen
    then passed
    else if content_of (read_file path) == []
    then rest
    else content_of (read_file path)

unfoldable pub read_first_existing_file : (Str → Result Str) → List Str → Str
unfolding read_first content_of
read_first_existing_file read_file paths = read_first read_file [] paths

-- completePodIdentity
unfoldable pub complete_pod_identity :
    (Str → Result Str) → MountRequest → MounterConfig → MountRequest
unfolding codes
complete_pod_identity read_file request cfg = record request {
  namespace =
      if request.namespace == []
      then read_first_existing_file read_file (cfg.namespace_file ∷ default_pod_ns_file ∷ [])
      else request.namespace;
  pod_name =
      if request.pod_name == []
      then read_first_existing_file read_file (cfg.pod_name_file ∷ codes "/etc/hostname" ∷ [])
      else request.pod_name;
  pod_uid =
      if request.pod_uid == []
      then read_first_existing_file read_file (cfg.pod_uid_file ∷ [])
      else request.pod_uid;
}

-- validateCLIRequest
unfoldable pub validate_cli_request : MountRequest → Result (Unit {0})
validate_cli_request request =
    if request.driver_name == []
    then err (text "driver name is required")
    else if request.namespace == []
    then err (text "namespace is required")
    else if request.pod_name == []
    then err (text "pod name is required")
    else if request.pod_uid == []
    then err (text "pod uid is required")
    else if request.pv_name == []
    then err (text "pv is required")
    else if request.target_path == []
    then err (text "target is required")
    else ok tt

-- The timeout that main passes on: none for zero and below.
unfoldable pub timeout_field : Duration → Duration
timeout_field (nanoseconds n) = nanoseconds n
timeout_field (minus_nanoseconds n) = nanoseconds 0

unfoldable pub is_disabled : Duration → Bool
is_disabled (nanoseconds n) = n == 0
is_disabled (minus_nanoseconds n) = true

-- The configuration of the client that main makes.
unfoldable pub client_config : MounterConfig → MountRequest → ClientConfig
unfolding timeout_field is_disabled
client_config cfg request = record {
  driver_name = request.driver_name;
  socket_path = cfg.socket_path;
  token_file = cfg.token_file;
  export_root_key_file = cfg.export_root_key_file;
  http_timeout = timeout_field cfg.http_timeout;
  disable_http_timeout = is_disabled cfg.http_timeout;
}

-- The requests of callMounter.
unfoldable pub client_mount_request : MountRequest → ClientMountRequest
client_mount_request request = record {
  namespace = request.namespace;
  pod_name = request.pod_name;
  pod_uid = request.pod_uid;
  pv_name = request.pv_name;
  source_sub_path = request.source_sub_path;
  target_path = request.target_path;
  container_name = request.container_name;
}

unfoldable pub client_unmount_request : MountRequest → ClientUnmountRequest
client_unmount_request request = record {
  namespace = request.namespace;
  pod_name = request.pod_name;
  pod_uid = request.pod_uid;
  pv_name = request.pv_name;
  target_path = request.target_path;
  container_name = request.container_name;
}
