-- ===== src/Wrapper/Server/Mount.antt =====
-- internal/wrapper/server.go: mount. The part under the target's lock is one step.
pub mod Outcomes
pub mod Failures
use kruise_agents_nfs_csi.Prelude.{
  Bool, true, false, not, ◌&&◌, ◌||◌, [], Option, none, some, ◌==◌, bool_eq, if◌then◌else◌,
}
use kruise_agents_nfs_csi.Go.Text.{Str, str_eq}
use kruise_agents_nfs_csi.Go.Errors.{
  Err, Result, ok, err, sentinel, bad_request, node_operation, wrap, join, join_opt,
}
use kruise_agents_nfs_csi.Go.Exec.{
  Exec, pure, raise, lift, attempt, on_error, error_of, ◌>>=◌, ◌>>◌,
}
use kruise_agents_nfs_csi.Api.{MountRequest, MountResult, request_eq}
use kruise_agents_nfs_csi.Node.{MountPlan}
use kruise_agents_nfs_csi.Node.NfsPath.{is_nfs_export_root}
use kruise_agents_nfs_csi.Wrapper.Desired.{
  DesiredMount, MountKey, key, mount_key_for, same_mount_intent,
}
use kruise_agents_nfs_csi.Wrapper.RootAuth.{authorize}
use kruise_agents_nfs_csi.Wrapper.Server.Base.{
  Server, World, get, put, delete, node_mount, is_mounted,
}
use kruise_agents_nfs_csi.Wrapper.Server.Admission.{authorized_mount_plan}

-- mountResult
unfoldable pub mount_result : Str → MountRequest → MountResult
mount_result driver_name request = record {
  mounted = true;
  driver_name = driver_name;
  pv_name = request.pv_name;
  source_sub_path = request.source_sub_path;
  target_path = request.target_path;
  container_name = request.container_name;
}

-- The intent that an authorized request states, not yet bound to a container.
unfoldable pub desired_for : MountRequest → MountPlan → Str → DesiredMount
desired_for request plan fingerprint = record {
  request = request;
  container_id = [];
  legacy_root_classification_unknown = false;
  export_root_authorized = is_nfs_export_root plan;
  export_root_key_fingerprint = fingerprint;
}

module _ {S N : Type 0} (s : Server S N) where
  -- restoreDesiredMount
  unfoldable pub restore_desired_mount :
      MountKey → Option DesiredMount → Exec (World S N) (Unit {0})
  restore_desired_mount k none =
      on_error (wrap "remove pending desired mount after failed operation") (delete s k)
  restore_desired_mount k (some previous) =
      on_error (wrap "restore desired mount after failed operation") (put s previous)

  -- A failed call of the node: its error, and that of putting the intent back.
  unfoldable pub roll_back {ℓ} :
      {A : Type ℓ} → MountKey → Option DesiredMount → Err → Exec (World S N) A
  roll_back k previous e = do
    restored ← attempt (restore_desired_mount k previous)
    raise (join_opt (join (sentinel node_operation) e) (error_of restored))

  -- The tests of an existing intent, and the update of its fingerprint.
  unfoldable pub admit_previous :
      DesiredMount → Option DesiredMount → Exec (World S N) (Option DesiredMount)
  admit_previous desired none = pure none
  admit_previous desired (some previous) =
      if not (previous.request == desired.request)
      then raise (wrap "mount request changed for an existing target" (sentinel bad_request))
      else if not (previous.export_root_authorized == desired.export_root_authorized)
      then raise (wrap "effective NFS export-root selection changed" (sentinel bad_request))
      else if previous.export_root_key_fingerprint == desired.export_root_key_fingerprint
      then pure (some previous)
      else (do
        let updated = record previous {
          export_root_key_fingerprint = desired.export_root_key_fingerprint;
        }
        on_error (wrap "persist updated export-root authorization") (put s updated)
        pure (some updated))

  -- A mounted target is left alone; its container is recorded if it was not.
  unfoldable pub confirm_mounted : DesiredMount → MountPlan → Bool → Exec (World S N) Bool
  confirm_mounted previous plan false = pure false
  confirm_mounted previous plan true =
      if previous.container_id == plan.container_id then pure true else (do
        on_error (wrap "persist mounted container identity")
            (put s (record previous { container_id = plan.container_id }))
        pure true)

  -- Whether the intent is there and its target is mounted in the same container.
  unfoldable pub already_mounted :
      DesiredMount → MountPlan → Option DesiredMount → Exec (World S N) Bool
  already_mounted desired plan none = pure false
  already_mounted desired plan (some previous) =
      if same_mount_intent previous desired
        && (previous.container_id == [] || previous.container_id == plan.container_id)
      then (do
        mounted ← on_error (λ e. join (sentinel node_operation) e) (is_mounted s plan)
        confirm_mounted previous plan mounted)
      else pure false

  -- Behind a successful mount the container is recorded; an error of that is only logged.
  unfoldable pub finish_mount :
      DesiredMount
      → MountPlan
      → Option DesiredMount
      → Result (Unit {0})
      → Exec (World S N) MountResult
  finish_mount desired plan previous (err e) = roll_back (key desired) previous e
  finish_mount desired plan previous (ok _) = do
    attempt (put s (record desired { container_id = plan.container_id }))
    pure (mount_result s.cfg.driver_name desired.request)

  unfoldable pub apply_mount :
      DesiredMount → MountPlan → Option DesiredMount → Exec (World S N) MountResult
  apply_mount desired plan previous = do
    on_error (wrap "persist desired mount") (put s desired)
    outcome ← attempt (node_mount s plan)
    finish_mount desired plan previous outcome

  -- Unless the target is mounted already, the mount is made.
  unfoldable pub complete_mount :
      DesiredMount → MountPlan → Option DesiredMount → Bool → Exec (World S N) MountResult
  complete_mount desired plan previous true = pure (mount_result s.cfg.driver_name desired.request)
  complete_mount desired plan previous false = apply_mount desired plan previous

  -- mount, from the lock on
  unfoldable pub mount_locked : DesiredMount → MountPlan → Exec (World S N) MountResult
  mount_locked desired plan w =
      ◌>>=◌ (admit_previous desired (get s (key desired) w))
        (λ previous. already_mounted desired plan previous >>= λ done.
          complete_mount desired plan previous done)
        w

  -- mount
  unfoldable pub mount : Str → Str → MountRequest → Exec (World S N) MountResult
  mount token export_root_key raw = do
    (request, plan) ← lift (authorized_mount_plan s token raw true)
    fingerprint ← lift (authorize s.sha256 s.export_root plan export_root_key)
    mount_locked (desired_for request plan fingerprint) plan
