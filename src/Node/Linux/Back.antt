-- ===== src/Node/Linux/Back.antt =====
-- The thread behind Mount and Unmount: it holds no more descriptors than before, and is in the mount
-- namespace that it was in, or in one that the code can only have left it in by what the kernel said.
use kruise_agents_nfs_csi.Prelude.{
  ℕ, ◌≡◌, refl, sym, subst, ◌∙◌, Bool, true, false, ◌||◌, [], ◌==◌, if◌then◌else◌, ◌∷◌,
}
use kruise_agents_nfs_csi.Go.Text.{Str, str_eq}
use kruise_agents_nfs_csi.Go.Search.{path_join}
use kruise_agents_nfs_csi.Go.Errors.{Result, ok, err, text, wrap, is, fail_if, no_system_call}
use kruise_agents_nfs_csi.Go.Exec.{Exec, pure, raise, lift, attempt, on_error, continue, ◌>>=◌}
use kruise_agents_nfs_csi.Node.{NodeConfig, MountPlan}
use kruise_agents_nfs_csi.Node.System.{Kernel, Thread, Open, Attributes, call, defer}
use kruise_agents_nfs_csi.Node.System.Held.{Keeps, held, call-held, call-attributes}
use kruise_agents_nfs_csi.Node.System.Stays.{attributes, namespace, Stays, Keeps-Stays}
use kruise_agents_nfs_csi.Node.Staging.{self_mount_info, mount_nfs, warn_cleanup_staging_path}
use kruise_agents_nfs_csi.Node.Staging.Kept.{mount_nfs-Keeps, warn_cleanup_staging_path-Keeps}
use kruise_agents_nfs_csi.Node.Namespaces.{is_mounted_at, unmount_in_container_namespace}
use kruise_agents_nfs_csi.Node.Namespaces.Restored.{Documented, Returned, unmoved}
use kruise_agents_nfs_csi.Node.Namespaces.Returned.{unmount_in_container_namespace-held}
use kruise_agents_nfs_csi.Node.Namespaces.Stays.{unmount_in_container_namespace-Stays}
use kruise_agents_nfs_csi.Node.Linux.Returned.{
  bind_mount_with_modern_api-held, bind_mount_with_legacy_api-held,
}
use kruise_agents_nfs_csi.Node.Linux.{
  bind_mount_with_modern_api, bind_mount_with_legacy_api, find_pid_of, fall_back, admit,
  mount_staged, mount, unmount,
}
use kruise_agents_nfs_csi.Node.Linux.Stays.{
  bind_mount_with_modern_api-Stays, bind_mount_with_legacy_api-Stays,
}

-- No descriptor more or less, and one of the namespaces that the code may end in.
pub record IsBack {D P : Type 0} (k : Kernel D P) (proc_root : Str) (before after : Thread D P)
    : Type 0 where
  pub descriptors : after.held ≡ before.held
  pub place : Returned k proc_root before.attributes.namespace after.attributes.namespace

module _ {D P : Type 0} (k : Kernel D P) (cfg : NodeConfig) (laws : Documented k) (h : Open P)
    (home : P) where
  abbrev Place : P → Type 0
  Place = Returned k cfg.host_proc_root home

  -- The thread holds these descriptors, in such a namespace.
  abbrev At : Thread D P → Type 0
  At t = (held t ≡ h) × Place (namespace t)

  abbrev Preserves : {A : Type 0} → Exec (Thread D P) A → Type 0
  Preserves m = (t : Thread D P) → At t → At (m t).1

  both : {A : Type 0} (m : Exec (Thread D P) A) → Keeps held m → Stays Place m → Preserves m
  both m keeps stays t at = (keeps t ∙ at.0, stays t at.1)

  bind-Preserves :
      {A B : Type 0} (m : Exec (Thread D P) A) (f : A → Exec (Thread D P) B)
      → Preserves m
      → ((a : A) → Preserves (f a))
      → Preserves (m >>= f)
  bind-Preserves {A} {B} m f first rest t at = go (m t).0
    where
      go : (r : Result A) → At (continue r f (m t).1).1
      go (ok a) = rest a (m t).1 (first t at)
      go (err e) = first t at

  fall_back-Preserves :
      (legacy : Exec (Thread D P) (Unit {0})) (r : Result (Unit {0}))
      → Preserves legacy
      → Preserves (fall_back k legacy r)
  fall_back-Preserves legacy (ok done) l = λ t at. at
  fall_back-Preserves legacy (err e) l = go (is no_system_call e)
    where
      go : (b : Bool) → Preserves (if b then legacy else raise e)
      go true = l
      go false = λ t at. at

  mount_staged-Preserves :
      (plan : MountPlan) (stage_path : Str) → Preserves (mount_staged k cfg plan stage_path)
  unfolding mount_staged is_mounted_at find_pid_of
  mount_staged-Preserves plan stage_path =
      bind-Preserves make (λ _. test >>= λ mounted. stage mounted >>= λ _. found)
        (both make (call-held (k.mkdir_all stage_path 0o750))
          (Keeps-Stays Place make (call-attributes (k.mkdir_all stage_path 0o750))))
        (λ _.
          bind-Preserves test (λ mounted. stage mounted >>= λ _. found) (λ t at. at)
            (λ mounted.
              bind-Preserves (stage mounted) (λ _. found) (staged mounted)
                (λ _.
                  bind-Preserves (find_pid_of k cfg plan)
                    (λ pid. attempt (modern pid) >>= fall_back k (legacy pid)) (λ t at. at)
                    (λ pid.
                      bind-Preserves (attempt (modern pid)) (fall_back k (legacy pid))
                        (both (modern pid)
                          (bind_mount_with_modern_api-held k laws.fresh cfg pid stage_path
                            plan.source_sub_path plan.target_path)
                          (bind_mount_with_modern_api-Stays k cfg laws home pid stage_path
                            plan.source_sub_path plan.target_path))
                        (λ r. fall_back-Preserves (legacy pid) r (
                          both (legacy pid)
                            (bind_mount_with_legacy_api-held k laws.fresh cfg pid stage_path
                              plan.source_sub_path plan.target_path)
                            (bind_mount_with_legacy_api-Stays k cfg laws home pid stage_path
                              plan.source_sub_path plan.target_path)))))))
    where
      make : Exec (Thread D P) (Unit {0})
      make = on_error (wrap "create staging path") (call (k.mkdir_all stage_path 0o750))

      test : Exec (Thread D P) Bool
      test = is_mounted_at k self_mount_info stage_path

      stage : Bool → Exec (Thread D P) (Unit {0})
      stage mounted = if mounted then pure tt else mount_nfs k plan.pv stage_path

      staged : (mounted : Bool) → Preserves (stage mounted)
      staged true = λ t at. at
      staged false =
          both (mount_nfs k plan.pv stage_path)
            (mount_nfs-Keeps k held call-held call-held plan.pv stage_path)
            (Keeps-Stays Place (mount_nfs k plan.pv stage_path)
              (mount_nfs-Keeps k attributes call-attributes call-attributes plan.pv stage_path))

      modern : ℕ → Exec (Thread D P) (Unit {0})
      modern pid =
          bind_mount_with_modern_api k cfg pid stage_path plan.source_sub_path plan.target_path

      legacy : ℕ → Exec (Thread D P) (Unit {0})
      legacy pid =
          bind_mount_with_legacy_api k cfg pid stage_path plan.source_sub_path plan.target_path

      found : Exec (Thread D P) (Unit {0})
      found = find_pid_of k cfg plan >>= λ pid. attempt (modern pid) >>= fall_back k (legacy pid)

  mount-Preserves : (plan : MountPlan) → Preserves (mount k cfg plan)
  unfolding mount admit defer
  mount-Preserves plan =
      bind-Preserves (admit k cfg)
        (λ _. complete >>= λ _. named >>= λ _. staged cfg.unstage_after_mount) (λ t at. at)
        (λ _.
          bind-Preserves complete (λ _. named >>= λ _. staged cfg.unstage_after_mount) (λ t at. at)
            (λ _.
              bind-Preserves named (λ _. staged cfg.unstage_after_mount) (λ t at. at)
                (λ _. either cfg.unstage_after_mount)))
    where
      stage_path : Str
      stage_path = path_join (cfg.staging_root ∷ plan.pv.name ∷ [])

      complete : Exec (Thread D P) (Unit {0})
      complete = lift (
          fail_if (plan.pv.server == [] || plan.pv.share == [])
            (text "pv is missing nfs server or share attributes"))

      named : Exec (Thread D P) (Unit {0})
      named = lift (fail_if (plan.container_id == []) (text "container has empty container id"))

      staged : Bool → Exec (Thread D P) (Unit {0})
      staged unstage =
          if unstage
          then defer (warn_cleanup_staging_path k stage_path) (mount_staged k cfg plan stage_path)
          else mount_staged k cfg plan stage_path

      either : (unstage : Bool) → Preserves (staged unstage)
      either false t at = mount_staged-Preserves plan stage_path t at
      either true t at =
          let inside = mount_staged-Preserves plan stage_path t at in
          let after = (mount_staged k cfg plan stage_path t).1 in
          (
            warn_cleanup_staging_path-Keeps k held call-held call-held stage_path after ∙ inside.0,
            subst (λ (a : Attributes P). Place a.namespace)
                (sym (
                  warn_cleanup_staging_path-Keeps k attributes call-attributes call-attributes
                    stage_path after))
                inside.1,
          )

  unmount-Preserves : (plan : MountPlan) → Preserves (unmount k cfg plan)
  unfolding unmount admit find_pid_of
  unmount-Preserves plan =
      bind-Preserves (admit k cfg) (λ _. named >>= λ _. found) (λ t at. at)
        (λ _.
          bind-Preserves named (λ _. found) (λ t at. at)
            (λ _.
              bind-Preserves (find_pid_of k cfg plan) detach (λ t at. at)
                (λ pid.
                  both (detach pid)
                    (unmount_in_container_namespace-held k cfg.host_proc_root pid plan.target_path)
                    (unmount_in_container_namespace-Stays k cfg.host_proc_root laws home pid
                      plan.target_path))))
    where
      named : Exec (Thread D P) (Unit {0})
      named = lift (fail_if (plan.container_id == []) (text "container has empty container id"))

      detach : ℕ → Exec (Thread D P) (Unit {0})
      detach pid = unmount_in_container_namespace k cfg.host_proc_root pid plan.target_path

      found : Exec (Thread D P) (Unit {0})
      found = find_pid_of k cfg plan >>= detach

module _ {D P : Type 0} (k : Kernel D P) (cfg : NodeConfig) (laws : Documented k) where
  -- If the kernel gives new descriptors unused numbers and setns enters what it is given, then
  -- Mount, whatever it returns, leaves the thread with the descriptors that it held before, and in
  -- the mount namespace that it was in; or in one that opening /proc/self/ns/mnt returns there, or in
  -- one so reached; or, where setns back to such a namespace fails, in the one where it fails.
  pub mount-IsBack :
      (plan : MountPlan) (t : Thread D P) → IsBack k cfg.host_proc_root t (mount k cfg plan t).1
  mount-IsBack plan t =
      let (descriptors, place) =
        mount-Preserves k cfg laws t.held t.attributes.namespace plan t (refl, unmoved) in
      record { descriptors = descriptors; place = place }

  -- Under the same conditions the same holds of Unmount.
  pub unmount-IsBack :
      (plan : MountPlan) (t : Thread D P) → IsBack k cfg.host_proc_root t (unmount k cfg plan t).1
  unmount-IsBack plan t =
      let (descriptors, place) =
        unmount-Preserves k cfg laws t.held t.attributes.namespace plan t (refl, unmoved) in
      record { descriptors = descriptors; place = place }
