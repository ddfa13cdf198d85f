-- ===== src/Config/Load.antt =====
-- internal/config/config.go: the configurations that the environment gives. `getenv` stands for
-- os.Getenv, which gives the empty text for a variable that is not set, and `parse_duration` for
-- time.ParseDuration.
use kruise_agents_nfs_csi.Prelude.{
  ℕ, ◌*◌, ◌^◌, ◌-◌, Bool, true, false, List, [], ◌∷◌, ◌==◌, any, if◌then◌else◌,
}
use kruise_agents_nfs_csi.Go.Text.{Str, codes, str_eq}
use kruise_agents_nfs_csi.Go.Errors.{Result, ok, err, text, wrap, map_err, ◌>>=◌}
use kruise_agents_nfs_csi.Config.{WrapperConfig, MounterConfig, Duration, nanoseconds}
use kruise_agents_nfs_csi.Config.Modes.{parse_uint_octal, parse_file_mode}

-- A parsed value, or the fallback.
unfoldable pub or_else {ℓ} : {A : Type ℓ} → Result A → A → A
or_else (ok a) fallback = a
or_else (err e) fallback = fallback

-- strconv.ParseBool
unfoldable pub true_words : List Str
unfolding codes
true_words = codes "1" ∷ codes "t" ∷ codes "T" ∷ codes "TRUE" ∷ codes "true" ∷ codes "True" ∷ []

unfoldable pub false_words : List Str
unfolding codes
false_words = codes "0" ∷ codes "f" ∷ codes "F" ∷ codes "FALSE" ∷ codes "false" ∷ codes "False" ∷ []

unfoldable pub parse_bool : Str → Result Bool
unfolding any
parse_bool value =
    if any (λ word. word == value) true_words
    then ok true
    else if any (λ word. word == value) false_words
    then ok false
    else err (text "invalid syntax")

module _ (getenv : Str → Str) where
  -- Env
  unfoldable pub env : Str → Str → Str
  env name fallback = if getenv name == [] then fallback else getenv name

  -- The shape of BoolEnv, DurationEnv and FileModeEnv: a value that does not parse is passed over.
  unfoldable pub parsed_env {ℓ} : {A : Type ℓ} → (Str → Result A) → Str → A → A
  unfolding or_else
  parsed_env parse name fallback =
      if getenv name == [] then fallback else or_else (parse (getenv name)) fallback

  -- BoolEnv
  unfoldable pub bool_env : Str → Bool → Bool
  unfolding parsed_env
  bool_env name fallback = parsed_env parse_bool name fallback

  -- DurationEnv
  unfoldable pub duration_env : (Str → Result Duration) → Str → Duration → Duration
  unfolding parsed_env
  duration_env parse_duration name fallback = parsed_env parse_duration name fallback

  -- FileModeEnv
  unfoldable pub file_mode_env : Str → ℕ → ℕ
  unfolding parsed_env
  file_mode_env name fallback = parsed_env (parse_uint_octal (2 ^ 32 - 1)) name fallback

  -- StrictFileModeEnv
  unfoldable pub strict_file_mode_env : Str → ℕ → Result ℕ
  strict_file_mode_env name fallback =
      if getenv name == []
      then ok fallback
      else map_err (wrap "environment variable") (parse_file_mode (getenv name))

abbrev pub default_created_sub_path_mode : ℕ
default_created_sub_path_mode = 0o770

abbrev pub default_driver_name : Str
default_driver_name = codes "csi.nfs.zhida"

abbrev pub default_token_audience : Str
default_token_audience = codes "kruise-agents-nfs-csi.zhida/sandbox-mounter"

abbrev pub default_socket_path : Str
default_socket_path = codes "/var/lib/kruise-agents-nfs-csi/wrapper.sock"

-- DefaultPodNSFile
abbrev pub default_pod_ns_file : Str
default_pod_ns_file = codes "/var/run/secrets/kruise-agents-nfs-csi/namespace"

module _ (getenv : Str → Str) (parse_duration : Str → Result Duration) where
  -- LoadWrapperConfig
  unfoldable pub load_wrapper_config : Result WrapperConfig
  load_wrapper_config = do
    mode ←
        strict_file_mode_env getenv (codes "WRAPPER_CREATED_SUBPATH_MODE")
          default_created_sub_path_mode
    ok (record {
      driver_name = env getenv (codes "DRIVER_NAME") default_driver_name;
      socket_path = env getenv (codes "WRAPPER_SOCKET_PATH") default_socket_path;
      socket_mode = file_mode_env getenv (codes "WRAPPER_SOCKET_MODE") 0o660;
      token_audience = env getenv (codes "TOKEN_AUDIENCE") default_token_audience;
      kube_token_file =
          env getenv (codes "KUBE_TOKEN_FILE")
            (codes "/var/run/secrets/kubernetes.io/serviceaccount/token");
      kube_ca_file =
          env getenv (codes "KUBE_CA_FILE")
            (codes "/var/run/secrets/kubernetes.io/serviceaccount/ca.crt");
      staging_root =
          env getenv (codes "WRAPPER_STAGING_ROOT")
            (codes "/var/lib/kruise-agents-nfs-csi/staging");
      mount_state_dir =
          env getenv (codes "WRAPPER_MOUNT_STATE_DIR")
            (codes "/var/lib/kruise-agents-nfs-csi/mounts");
      node_name =
          env getenv (codes "WRAPPER_NODE_NAME")
            (env getenv (codes "NODE_ID") (env getenv (codes "KUBE_NODE_NAME") []));
      host_proc_root = env getenv (codes "WRAPPER_HOST_PROC_ROOT") (codes "/proc");
      request_timeout =
          duration_env getenv parse_duration (codes "WRAPPER_REQUEST_TIMEOUT")
            (nanoseconds (30 * 10 ^ 9));
      enable_mount = bool_env getenv (codes "WRAPPER_ENABLE_MOUNT") true;
      unstage_after_mount = bool_env getenv (codes "WRAPPER_UNSTAGE_AFTER_MOUNT") true;
      create_missing_sub_paths = bool_env getenv (codes "WRAPPER_CREATE_MISSING_SUBPATHS") false;
      created_sub_path_mode = mode;
      export_root_key_file = env getenv (codes "WRAPPER_EXPORT_ROOT_KEY_FILE") [];
    })

  -- LoadMounterConfig
  unfoldable pub load_mounter_config : MounterConfig
  load_mounter_config = record {
    driver_name = env getenv (codes "DRIVER_NAME") default_driver_name;
    socket_path = env getenv (codes "WRAPPER_SOCKET_PATH") default_socket_path;
    token_file =
        env getenv (codes "PROJECTED_TOKEN_FILE")
          (codes "/var/run/secrets/kruise-agents-nfs-csi/token");
    token_audience = env getenv (codes "TOKEN_AUDIENCE") default_token_audience;
    namespace_file =
        env getenv (codes "NAMESPACE_FILE")
          (codes "/var/run/secrets/kubernetes.io/serviceaccount/namespace");
    pod_name_file =
        env getenv (codes "POD_NAME_FILE")
          (codes "/var/run/secrets/kruise-agents-nfs-csi/pod_name");
    pod_uid_file =
        env getenv (codes "POD_UID_FILE") (codes "/var/run/secrets/kruise-agents-nfs-csi/pod_uid");
    http_timeout =
        duration_env getenv parse_duration (codes "MOUNTER_HTTP_TIMEOUT")
          (nanoseconds (15 * 10 ^ 9));
    export_root_key_file = env getenv (codes "EXPORT_ROOT_KEY_FILE") [];
  }
