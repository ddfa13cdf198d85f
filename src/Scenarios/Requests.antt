-- ===== src/Scenarios/Requests.antt =====
-- Mount and unmount requests of the fixture's pod, and the checks they go through.
use kruise_agents_nfs_csi.Prelude.{
  ◌∷◌, ◌++◌, ◌≤◌, length, if◌then◌else◌, ◌≡◌, ◌⊎◌, ◌↔◌, refl, true, [], none, ℕ_discrete, any,
}
use kruise_agents_nfs_csi.Go.Text.{
  Str, str_eq, codes, str_dec, contains_byte, has_prefix, trim_space,
}
use kruise_agents_nfs_csi.Go.Split.{split, join}
use kruise_agents_nfs_csi.Go.Clean.{is_abs, clean, clean_parts, resolve, enter, render}
use kruise_agents_nfs_csi.Go.Clean.Kept.{has_dot_dot}
use kruise_agents_nfs_csi.Go.Maps.{lookup, insert}
use kruise_agents_nfs_csi.Go.Errors.{ok, text}
use kruise_agents_nfs_csi.Api.{version}
use kruise_agents_nfs_csi.Node.{MountPlan}
use kruise_agents_nfs_csi.Node.NfsPath.{is_nfs_export_root}
use kruise_agents_nfs_csi.Security.TargetPath.{
  validate_target_path, is_denied, denied_exact, denied_files, denied_prefixes,
}
use kruise_agents_nfs_csi.Security.SubPath.{validate_source_sub_path}
use kruise_agents_nfs_csi.Wrapper.Authz.{
  validate_request_shape, authorize_pod, authorize_pv_annotation, allow_namespace_annotation,
}
use kruise_agents_nfs_csi.Wrapper.Authz.Policy.{IsTarget, IsBound, authorize_pod_iff}
use kruise_agents_nfs_csi.Wrapper.Authz.Annotations.{Allows, authorize_pv_annotation_iff}
use kruise_agents_nfs_csi.Wrapper.Desired.{MountKey, MountKey-discrete, key, mount_key_for}
use kruise_agents_nfs_csi.Wrapper.RootAuth.Loaded.{load-authorize}
use kruise_agents_nfs_csi.Wrapper.Server.Http.{HttpRequest, post_method, bearer, handle_mount}
use kruise_agents_nfs_csi.Wrapper.Server.Http.Served.{Handled, handle_mount-Handled}
use kruise_agents_nfs_csi.Wrapper.RootAuth.{
  ExportRootAuthorizer, load_export_root_authorizer, hex, authorize,
}
use kruise_agents_nfs_csi.Wrapper.Server.Base.{get}
use kruise_agents_nfs_csi.Wrapper.Server.Admission.{normalize_mount_request}
use kruise_agents_nfs_csi.Wrapper.Server.Guards.{
  IsGranted, MayUnmount, mount-IsGranted, unmount-MayUnmount,
}
use kruise_agents_nfs_csi.Wrapper.Server.Mount.{
  mount, mount_result, mount_locked, admit_previous, already_mounted, complete_mount, apply_mount,
  finish_mount, restore_desired_mount,
}
use kruise_agents_nfs_csi.Wrapper.Server.Mount.Outcomes.{Recorded, mount_locked-Recorded}
use kruise_agents_nfs_csi.Wrapper.Server.Mount.Failures.{FailsOnNode, apply_mount_refused}
use kruise_agents_nfs_csi.Wrapper.Server.Unmount.{
  unmount, unmount_locked, unmount_plan, unmount_result, unmount_found, drop_stale, apply_unmount,
}
use kruise_agents_nfs_csi.Wrapper.Server.Unmount.Outcomes.{
  BoundTo, unmount_locked-get, unmount_locked-node,
}
use kruise_agents_nfs_csi.Wrapper.State.{put_in_memory, store_entry, displace}
use kruise_agents_nfs_csi.Wrapper.State.Files.{
  put, delete, delete_found, remove_file, write_mount_locked, payload_of, with_temporary,
  fill_and_replace, or_close,
}
use kruise_agents_nfs_csi.Wrapper.State.Files.Kept.{file_store-IsStore}
use kruise_agents_nfs_csi.Scenarios.Fixture.{
  target, bound_world, server, refusing_server, empty_world, token, request, unmount_request,
  desired, plan, pod, status, volume, files, ns, container_status, driver,
}

mount-IsGranted_example :
    ((mount server token [] request empty_world).1 ≡ empty_world)
    ⊎ IsGranted server token [] request empty_world (mount server token [] request empty_world).1
mount-IsGranted_example = mount-IsGranted server token [] request empty_world

unmount-MayUnmount_example :
    ((unmount server token unmount_request empty_world).1 ≡ empty_world)
    ⊎ MayUnmount server token unmount_request empty_world
        (unmount server token unmount_request empty_world).1
unmount-MayUnmount_example = unmount-MayUnmount server token unmount_request empty_world

mounted : (mount_locked server desired plan empty_world).0 ≡ ok (mount_result driver request)
unfolding mount_locked admit_previous already_mounted complete_mount apply_mount finish_mount put
    write_mount_locked payload_of with_temporary fill_and_replace or_close lookup
mounted = refl

mount_locked-Recorded_example :
    Recorded server
      (file_store-IsStore files)
      desired
      plan
      (get server (key desired) (mount_locked server desired plan empty_world).1)
mount_locked-Recorded_example =
    mount_locked-Recorded server (file_store-IsStore files) desired plan empty_world
      (mount_result driver request) refl mounted

apply_mount_refused_example :
    FailsOnNode (apply_mount refusing_server desired plan none empty_world).0
    × ((k : MountKey)
        → get refusing_server k (apply_mount refusing_server desired plan none empty_world).1
          ≡ get refusing_server k empty_world)
unfolding lookup put write_mount_locked payload_of with_temporary fill_and_replace or_close
    restore_desired_mount delete delete_found remove_file insert put_in_memory displace store_entry
    str_dec ℕ_discrete MountKey-discrete
apply_mount_refused_example =
    apply_mount_refused refusing_server (file_store-IsStore files) desired plan empty_world
      (text "mount failed") refl refl refl

unmounted :
    (unmount_locked server request pod container_status bound_world).0
    ≡ ok (unmount_result driver request)
unfolding unmount_locked unmount_found lookup str_dec ℕ_discrete MountKey-discrete drop_stale
    apply_unmount delete delete_found remove_file put write_mount_locked fill_and_replace or_close
    put_in_memory store_entry insert unmount_plan
unmounted = refl

unmount_locked-get_example :
    get server
      (mount_key_for request)
      (unmount_locked server request pod container_status bound_world).1
    ≡ none
unmount_locked-get_example =
    unmount_locked-get server (file_store-IsStore files) request pod container_status bound_world
      (unmount_result driver request) unmounted

unmount_locked-node_example :
    ((unmount_locked server request pod container_status bound_world).1.node ≡ bound_world.node)
    ⊎ (BoundTo server
          (file_store-IsStore files)
          request
          container_status
          (get server (mount_key_for request) bound_world)
        × ((unmount_locked server request pod container_status bound_world).1.node
            ≡ (server.mounter.unmount
                (unmount_plan request pod container_status)
                bound_world.node).1))
unmount_locked-node_example =
    unmount_locked-node server (file_store-IsStore files) request pod container_status bound_world

authorize_pod_iff_example :
    (authorize_pod status pod request ≡ ok tt) ↔ (IsTarget pod request × IsBound status pod request)
authorize_pod_iff_example = authorize_pod_iff status pod request

authorize_pv_annotation_iff_example :
    (authorize_pv_annotation volume allow_namespace_annotation ns ≡ ok tt)
    ↔ Allows (lookup allow_namespace_annotation volume.metadata.annotations) ns
authorize_pv_annotation_iff_example =
    authorize_pv_annotation_iff volume allow_namespace_annotation ns

normal : normalize_mount_request server request true ≡ ok request
unfolding normalize_mount_request validate_request_shape version codes validate_target_path
    validate_source_sub_path contains_byte is_abs is_denied has_dot_dot clean clean_parts resolve
    enter render split join denied_exact denied_files denied_prefixes has_prefix str_dec ℕ_discrete
    any
normal = refl

-- The volume's root, for which a configured key is asked.
abbrev root_plan : MountPlan
root_plan = record plan { source_sub_path = [] }

abbrev post : HttpRequest
post = record {
  path = codes "/v1/mount";
  method = post_method;
  authorization = bearer ++ token;
  export_root_key = [];
  body = [];
}

handle_mount-Handled_example :
    Handled server
      (λ t body. mount server t post.export_root_key body)
      (λ bytes. ok request)
      post
      empty_world
      (handle_mount server (λ bytes. ok request) post empty_world)
handle_mount-Handled_example = handle_mount-Handled server (λ bytes. ok request) post empty_world

-- 32 bytes "k" and a line feed.
abbrev key_file : Str
key_file =
    107 ∷ 107 ∷ 107 ∷ 107 ∷ 107 ∷ 107 ∷ 107 ∷ 107 ∷ 107 ∷ 107 ∷ 107 ∷ 107 ∷ 107 ∷ 107 ∷ 107 ∷ 107
    ∷ 107 ∷ 107 ∷ 107 ∷ 107 ∷ 107 ∷ 107 ∷ 107 ∷ 107 ∷ 107 ∷ 107 ∷ 107 ∷ 107 ∷ 107 ∷ 107 ∷ 107 ∷ 107
    ∷ 10 ∷ []

abbrev loaded_root : ExportRootAuthorizer
loaded_root = record {
  configured = true;
  key_hash = trim_space key_file;
  fingerprint = hex (trim_space key_file);
}

key_loaded :
    load_export_root_authorizer (λ bytes. bytes) (λ name. ok key_file) target ≡ ok loaded_root
unfolding load_export_root_authorizer trim_space ℕ_discrete
key_loaded = refl

load-authorize_example :
    (authorize (λ bytes. bytes) loaded_root root_plan key_file
      ≡ ok (if is_nfs_export_root root_plan then loaded_root.fingerprint else []))
    × (loaded_root.fingerprint ≡ hex (trim_space key_file))
    × (32 ≤ length (trim_space key_file))
    × (length (trim_space key_file) ≤ 4096)
load-authorize_example =
    load-authorize (λ bytes. bytes) (λ name. ok key_file) 47 (100 ∷ 97 ∷ 116 ∷ 97 ∷ []) key_file
      loaded_root root_plan key_loaded refl
