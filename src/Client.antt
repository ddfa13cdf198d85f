-- ===== src/Client.antt =====
-- mounter/client.go: the client of the wrapper's API. Sending a message over the socket, reading files
-- and JSON are parameters.
pub mod Publish
pub mod Command
pub mod Token
pub mod Served
use kruise_agents_nfs_csi.Prelude.{
  ℕ, ◌*◌, ◌^◌, String, Bool, true, false, not, ◌||◌, List, [], ◌∷◌, ◌++◌, Option, none, some, ltb,
  leb, take, ◌==◌, nat_eq, if◌then◌else◌,
}
use kruise_agents_nfs_csi.Go.Text.{Str, codes, str_eq, trim_space}
use kruise_agents_nfs_csi.Go.Errors.{Err, Result, ok, err, text, wrap, fail_if, map_err}
use kruise_agents_nfs_csi.Go.Exec.{Exec, lift, on_error, ◌>>=◌, ◌>>◌}
use kruise_agents_nfs_csi.Config.{Duration, nanoseconds, minus_nanoseconds}
use kruise_agents_nfs_csi.Api.{MountRequest, UnmountRequest, version}

-- Config
pub record ClientConfig : Type 0 where
  pub driver_name : Str
  pub socket_path : Str
  pub token_file : Str
  pub export_root_key_file : Str
  pub http_timeout : Duration
  pub disable_http_timeout : Bool

-- Client; the timeout is that of its http.Client, where zero is none
pub record Client : Type 0 where
  pub driver_name : Str
  pub socket_path : Str
  pub token_file : Str
  pub export_root_key_file : Str
  pub timeout : Duration

-- MountRequest
pub record ClientMountRequest : Type 0 where
  pub namespace : Str
  pub pod_name : Str
  pub pod_uid : Str
  pub pv_name : Str
  pub source_sub_path : Str
  pub target_path : Str
  pub container_name : Str

-- UnmountRequest
pub record ClientUnmountRequest : Type 0 where
  pub namespace : Str
  pub pod_name : Str
  pub pod_uid : Str
  pub pv_name : Str
  pub target_path : Str
  pub container_name : Str

-- The timeout of a configuration that is not negative.
unfoldable pub timeout_of : Bool → ℕ → Duration
timeout_of disabled n =
    if disabled then nanoseconds 0 else if n == 0 then nanoseconds (15 * 10 ^ 9) else nanoseconds n

unfoldable pub checked_timeout : Bool → Duration → Result Duration
unfolding timeout_of
checked_timeout disabled (nanoseconds n) = ok (timeout_of disabled n)
checked_timeout disabled (minus_nanoseconds n) = err (text "http timeout must not be negative")

-- NewClient
unfoldable pub new_client : ClientConfig → Result Client
unfolding checked_timeout
new_client cfg =
    if cfg.driver_name == []
    then err (text "driver name is required")
    else if cfg.socket_path == []
    then err (text "socket path is required")
    else if cfg.token_file == []
    then err (text "token file is required")
    else elim (checked_timeout cfg.disable_http_timeout cfg.http_timeout) [
      | err e ↦ err e
      | ok timeout ↦ ok (record {
        driver_name = cfg.driver_name;
        socket_path = cfg.socket_path;
        token_file = cfg.token_file;
        export_root_key_file = cfg.export_root_key_file;
        timeout = timeout;
      })
    ]

-- validateRequest
unfoldable pub validate_request : Str → Str → Str → Str → Str → Result (Unit {0})
validate_request namespace pod_name pod_uid pv_name target_path =
    if namespace == []
    then err (text "namespace is required")
    else if pod_name == []
    then err (text "pod name is required")
    else if pod_uid == []
    then err (text "pod uid is required")
    else if pv_name == []
    then err (text "pv is required")
    else if target_path == []
    then err (text "target is required")
    else ok tt

-- The trimmed content of a file, which must not be empty.
unfoldable pub unless_empty : String → Str → Result Str
unless_empty complaint value = if value == [] then err (text complaint) else ok value

abbrev pub trimmed : String → Result Str → Result Str
trimmed complaint (err e) = err e
trimmed complaint (ok contents) = unless_empty complaint (trim_space contents)

-- (*Client) readToken
unfoldable pub read_token : (Str → Result Str) → Client → Result Str
unfolding unless_empty
read_token read_file c =
    trimmed "projected token file is empty"
      (map_err (wrap "read projected token file") (read_file c.token_file))

-- (*Client) readExportRootKey
unfoldable pub read_export_root_key : (Str → Result Str) → Client → Result Str
unfolding unless_empty
read_export_root_key read_file c =
    if c.export_root_key_file == []
    then ok []
    else trimmed "export root key file is empty"
        (map_err (wrap "read export root key file") (read_file c.export_root_key_file))

-- The request of call: an absent header is an empty one.
pub record Message : Type 0 where
  pub method : Str
  pub endpoint : Str
  pub accept : Str
  pub content_type : Str
  pub authorization : Str
  pub export_root_key : Str
  pub body : Option Str

-- The response: its status, and its body.
pub record Reply : Type 0 where
  pub status : ℕ
  pub body : Result Str

abbrev pub max_response_size : ℕ
max_response_size = 2 ^ 20

-- The envelope of a response.
pub record Envelope : Type 0 where
  pub content : Str
  pub error : Str

unfoldable pub json_type : Str
unfolding codes
json_type = codes "application/json"

unfoldable pub content_type_of : Option Str → Str
unfolding json_type
content_type_of none = []
content_type_of (some body) = json_type

-- The headers that call sets.
unfoldable pub message : Str → Str → Str → Str → Option Str → Message
unfolding codes content_type_of
message method endpoint token export_root_key body = record {
  method = method;
  endpoint = endpoint;
  accept = json_type;
  content_type = content_type_of body;
  authorization = if token == [] then [] else codes "Bearer " ++ token;
  export_root_key = export_root_key;
  body = body;
}

-- The envelope of a success.
unfoldable pub decode_content : {R : Type 0} → (Str → Result R) → Result Envelope → Result R
decode_content decode (err e) = err (wrap "decode wrapper response" e)
decode_content decode (ok envelope) =
    if envelope.content == []
    then err (text "wrapper response did not include data")
    else map_err (wrap "decode wrapper result") (decode envelope.content)

-- call, behind the reading of the body. The text of a ResponseError is dropped.
unfoldable pub read_reply :
    {R : Type 0} → (Str → Result Envelope) → (Str → Result R) → ℕ → Str → Result R
unfolding decode_content
read_reply unmarshal decode status body =
    if ltb status 200 || leb 300 status
    then err (text "wrapper rejected request")
    else decode_content decode (unmarshal body)

abbrev pub mount_payload : Client → ClientMountRequest → MountRequest
mount_payload c request = record {
  api_version = version;
  driver_name = c.driver_name;
  namespace = request.namespace;
  pod_name = request.pod_name;
  pod_uid = request.pod_uid;
  pv_name = request.pv_name;
  source_sub_path = request.source_sub_path;
  target_path = request.target_path;
  container_name = request.container_name;
}

abbrev pub unmount_payload : Client → ClientUnmountRequest → UnmountRequest
unmount_payload c request = record {
  api_version = version;
  driver_name = c.driver_name;
  namespace = request.namespace;
  pod_name = request.pod_name;
  pod_uid = request.pod_uid;
  pv_name = request.pv_name;
  target_path = request.target_path;
  container_name = request.container_name;
}

-- The messages of Mount and Unmount.
unfoldable pub mount_message : Client → Str → Str → Str → Message
unfolding codes message
mount_message c token key body = message (codes "POST") (codes "/v1/mount") token key (some body)

unfoldable pub unmount_message : Client → Str → Str → Message
unfolding codes message
unmount_message c token body = message (codes "POST") (codes "/v1/unmount") token [] (some body)

module _ {W : Type 0} (send : Message → Exec W Reply) (unmarshal : Str → Result Envelope)
    (read_file : Str → Result Str) where
  -- (*Client) call, from the encoded payload on
  unfoldable pub call : {R : Type 0} → (Str → Result R) → Message → Exec W R
  unfolding read_reply take
  call decode m = do
    reply ← on_error (wrap "call wrapper socket") (send m)
    body ← lift (map_err (wrap "read wrapper response") reply.body)
    lift (read_reply unmarshal decode reply.status (take max_response_size body))

  -- (*Client) Mount
  unfoldable pub mount :
      {R : Type 0}
      → (MountRequest → Result Str)
      → (Str → Result R)
      → Client
      → ClientMountRequest
      → Exec W R
  mount marshal decode c request = do
    lift (
        validate_request request.namespace request.pod_name request.pod_uid request.pv_name
          request.target_path)
    token ← lift (read_token read_file c)
    key ← lift (read_export_root_key read_file c)
    body ← lift (map_err (wrap "marshal mount request") (marshal (mount_payload c request)))
    call decode (mount_message c token key body)

  -- (*Client) Unmount
  unfoldable pub unmount :
      {R : Type 0}
      → (UnmountRequest → Result Str)
      → (Str → Result R)
      → Client
      → ClientUnmountRequest
      → Exec W R
  unmount marshal decode c request = do
    lift (
        validate_request request.namespace request.pod_name request.pod_uid request.pv_name
          request.target_path)
    token ← lift (read_token read_file c)
    body ← lift (map_err (wrap "marshal unmount request") (marshal (unmount_payload c request)))
    call decode (unmount_message c token body)

  -- (*Client) Health
  unfoldable pub health : {R : Type 0} → (Str → Result R) → Exec W R
  unfolding codes message
  health decode = call decode (message (codes "GET") (codes "/healthz") [] [] none)
