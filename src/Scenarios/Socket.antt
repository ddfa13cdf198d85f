-- ===== src/Scenarios/Socket.antt =====
-- The client against the wrapper of the fixture.
use kruise_agents_nfs_csi.Prelude.{
  ◌≡◌, ◌≤◌, refl, sym, subst, ◌∙◌, [], ◌∷◌, arith, ℕ_discrete, length, any,
}
use kruise_agents_nfs_csi.Go.Text.{
  trim_left, Str, str_dec, trim_space, trim_by, codes, contains_byte, has_prefix,
}
use kruise_agents_nfs_csi.Go.Split.{split, join}
use kruise_agents_nfs_csi.Go.Clean.{is_abs, clean, clean_parts, resolve, enter, render}
use kruise_agents_nfs_csi.Go.Clean.Kept.{has_dot_dot}
use kruise_agents_nfs_csi.Go.Maps.{lookup}
use kruise_agents_nfs_csi.Go.Errors.{Result, ok}
use kruise_agents_nfs_csi.Config.{nanoseconds}
use kruise_agents_nfs_csi.Client.{
  Client, ClientMountRequest, Message, max_response_size, mount, mount_payload, validate_request,
  read_token, read_export_root_key, unless_empty,
}
use kruise_agents_nfs_csi.Client.Served.{Answers, socket, mount-Answers}
use kruise_agents_nfs_csi.Wrapper.Server.Mount
use kruise_agents_nfs_csi.Wrapper.Authz.Containers.{select_container_status}
use kruise_agents_nfs_csi.Wrapper.Authz.Plan.{build_mount_plan, sub_dir_of, server_of, share_of}
use kruise_agents_nfs_csi.Api.{MountRequest, MountResult, version}
use kruise_agents_nfs_csi.Security.TargetPath.{
  validate_target_path, is_denied, denied_exact, denied_files, denied_prefixes,
}
use kruise_agents_nfs_csi.Security.SubPath.{validate_source_sub_path}
use kruise_agents_nfs_csi.Node.NfsPath.{
  normalize_nfs_sub_dir, normalize_trimmed, is_nfs_export_root,
}
use kruise_agents_nfs_csi.Wrapper.Authz.{
  service_account_prefix, succeeded, failed, token_pod_name_extra_key, token_pod_uid_extra_key,
  allow_namespace_annotation, allow_service_account_annotation, validate_request_shape,
  contains_string, authorize_token, require_single, require_token_pod_extra, validate_pod_identity,
  authorize_pod, validate_pod_node, scan_entries, authorize_pv_annotation, authorize_pv_for_pod,
}
use kruise_agents_nfs_csi.Wrapper.RootAuth.{authorize}
use kruise_agents_nfs_csi.Wrapper.Server.Admission.{
  normalize_sub_path, normalize_mount_request, authorized_pod_for_request, mount_plan_for_pod,
  authorized_mount_plan,
}
use kruise_agents_nfs_csi.Wrapper.Server.Http.{HttpRequest, Written}
use kruise_agents_nfs_csi.Wrapper.State.Files.{
  put, write_mount_locked, payload_of, with_temporary, fill_and_replace, or_close,
}
use kruise_agents_nfs_csi.Scenarios.Fixture.{
  server, empty_world, driver, token, ns, pod_name, pod_uid, pv_name, sub_path, target, container,
}
use kruise_agents_nfs_csi.Scenarios.Json.{json, result_body, json-IsSent, json-IsReadable}

abbrev client : Client
client = record {
  driver_name = driver;
  socket_path = [];
  token_file = [];
  export_root_key_file = [];
  timeout = nanoseconds 1;
}

abbrev client_request : ClientMountRequest
client_request = record {
  namespace = ns;
  pod_name = pod_name;
  pod_uid = pod_uid;
  pv_name = pv_name;
  source_sub_path = sub_path;
  target_path = target;
  container_name = container;
}

-- The token, and a line feed.
abbrev read_file : Str → Result Str
read_file path = ok (116 ∷ 111 ∷ 107 ∷ 10 ∷ [])

abbrev elsewhere : HttpRequest → Written
elsewhere r = record { status = 404; payload = [] }

abbrev check_headers : Message → Result (Unit {0})
check_headers m = ok tt

abbrev payload : MountRequest
payload = mount_payload client client_request

-- The wrapper mounts what is asked for.
served :
    (Mount.mount server token [] payload empty_world).0 ≡ ok (Mount.mount_result driver payload)
unfolding Mount.mount authorized_mount_plan authorized_pod_for_request mount_plan_for_pod
    normalize_sub_path normalize_mount_request validate_request_shape version codes
    validate_target_path validate_source_sub_path contains_byte is_abs is_denied has_dot_dot clean
    clean_parts resolve enter render split join denied_exact denied_files denied_prefixes has_prefix
    any authorize_token require_single require_token_pod_extra contains_string authorize_pod
    validate_pod_identity validate_pod_node authorize_pv_for_pod authorize_pv_annotation
    scan_entries authorize normalize_nfs_sub_dir normalize_trimmed is_nfs_export_root
    Mount.mount_locked Mount.admit_previous Mount.already_mounted Mount.complete_mount
    Mount.apply_mount Mount.finish_mount put write_mount_locked payload_of with_temporary
    fill_and_replace or_close lookup str_dec ℕ_discrete service_account_prefix succeeded failed
    token_pod_name_extra_key token_pod_uid_extra_key allow_namespace_annotation trim_space
    allow_service_account_annotation select_container_status build_mount_plan sub_dir_of server_of
    share_of trim_left Mount.desired_for
served = refl

served_short :
    (a : MountResult)
    → (Mount.mount server token [] payload empty_world).0 ≡ ok a
    → length (result_body a) ≤ max_response_size
unfolding join Mount.mount_result
served_short a h =
    subst (λ (x : MountResult). length (result_body x) ≤ max_response_size)
      (same (Mount.mount_result driver payload) a (sym served ∙ h)) (omega arith)
  where
    same : (x y : MountResult) → ok x ≡ ok y → x ≡ y
    same x y e = cc e

mount-Answers_example :
    ((mount
        (socket server json elsewhere check_headers)
        json.decode_envelope
        read_file
        json.encode_request
        json.decode_result
        client
        client_request
        empty_world).1
      ≡ (Mount.mount server token [] (mount_payload client client_request) empty_world).1)
    × Answers server json elsewhere check_headers
        (Mount.mount server token [] (mount_payload client client_request) empty_world).0
        (mount
          (socket server json elsewhere check_headers)
          json.decode_envelope
          read_file
          json.encode_request
          json.decode_result
          client
          client_request
          empty_world).0
unfolding validate_request read_token read_export_root_key unless_empty trim_space trim_by
    ℕ_discrete str_dec join version
mount-Answers_example =
    mount-Answers server json elsewhere check_headers read_file client client_request empty_world
      token [] (λ m a k. refl) refl refl
      ((omega arith, omega arith), ((omega arith, omega arith), ((omega arith, omega arith), tt)))
      refl tt (json-IsSent payload (omega arith)) (λ a h. json-IsReadable a (served_short a h))
