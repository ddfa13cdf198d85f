-- ===== src/Scenarios/Machine.antt =====
-- A kernel whose descriptors refer to paths, and whose state is the list of what has been mounted.
use kruise_agents_nfs_csi.Prelude.{
  ℕ, suc, ◌+◌, ◌≤◌, true, false, List, [], ◌∷◌, ◌++◌, none, arith, ◌==◌, if◌then◌else◌,
}
use kruise_agents_nfs_csi.Go.Text.{Str, codes, str_eq}
use kruise_agents_nfs_csi.Go.Errors.{ok}
use kruise_agents_nfs_csi.Config.{nanoseconds}
use kruise_agents_nfs_csi.Node.{NodeConfig, MountPlan}
use kruise_agents_nfs_csi.Node.System.{Kernel, Thread, Attributes, Open, IsUnused}
use kruise_agents_nfs_csi.Node.Namespaces.{namespace_path}
use kruise_agents_nfs_csi.Node.Namespaces.Restored.{Documented}

-- A number above those of the descriptors that are open.
abbrev above : Open Str → ℕ
above [] = 3
above ((n, p) ∷ held) = suc (n + above held)

above-IsUnused : (m : ℕ) (held : Open Str) → above held ≤ m → IsUnused m held
above-IsUnused m [] h = tt
above-IsUnused m ((n, p) ∷ held) h =
    (λ e. omega (arith, h, e), above-IsUnused m held (omega (arith, h)))

-- "/proc"
abbrev pub proc_root : Str
proc_root = 47 ∷ 112 ∷ 114 ∷ 111 ∷ 99 ∷ []

abbrev opened_at : Str → Attributes Str → Str
opened_at path a = if path == namespace_path proc_root (codes "self") then a.namespace else path

-- The mounts are those of the list, in lines of mountinfo.
abbrev line_at : Str → Str
line_at path = (49 ∷ 32 ∷ 50 ∷ 32 ∷ 51 ∷ 32 ∷ 47 ∷ 32 ∷ []) ++ (path ++ (32 ∷ 114 ∷ []))

abbrev lines_at : List Str → List Str
lines_at [] = []
lines_at (path ∷ paths) = line_at path ∷ lines_at paths

abbrev pub kernel : Kernel (List Str) Str
kernel = record {
  context_error = λ d. none;
  next_fd = λ d held. above held;
  open_file = λ flags path a d. (ok (opened_at path a), d);
  open_at = λ p segment d. (ok (p ++ (47 ∷ segment)), d);
  mkdir_at = λ p segment mode d. (ok tt, d);
  mkdir_all = λ path mode a d. (ok tt, d);
  open_tree = λ path a d. (ok path, d);
  open_tree_at = λ p d. (ok p, d);
  move_mount = λ p q d. (ok tt, q ∷ d);
  bind_mount = λ source target held a d. (ok tt, target ∷ d);
  unmount = λ path a d. (ok tt, []);
  remove = λ path a d. (ok tt, d);
  read_dir = λ path a d. ok (record { name = 55 ∷ []; is_dir = true } ∷ []);
  read_file = λ path a d. ok (117 ∷ 47 ∷ 99 ∷ []);
  scan_file = λ path a d. ok (record { lines = lines_at d; error = none });
  run = λ arguments a d. (ok [], d);
  unshare_fs = λ d. (ok tt, d);
  setns = λ p a d. (ok (record { namespace = p; root = p; cwd = p }), d);
  fchdir = λ p a d. (ok (record a { cwd = p }), d);
  chroot_here = λ a d. (ok (record a { root = a.cwd }), d);
  chdir_to_root = λ a d. (ok (record a { cwd = a.root }), d);
}

pub fresh : (d : List Str) (held : Open Str) → IsUnused (kernel.next_fd d held) held
fresh d held = above-IsUnused (above held) held (omega arith)

pub kernel-Documented : Documented kernel
kernel-Documented = record { fresh = fresh; enters = λ p a b d h. ground (arith, h) }

abbrev pub thread : List Str → Thread (List Str) Str
thread mounts = record {
  disk = mounts;
  held = [];
  attributes = record { namespace = 104 ∷ []; root = 47 ∷ []; cwd = 47 ∷ [] };
}

abbrev pub node_cfg : NodeConfig
node_cfg = record {
  driver_name = [];
  staging_root = 47 ∷ 115 ∷ [];
  host_proc_root = proc_root;
  enable_mount = true;
  unstage_after_mount = true;
  create_missing_sub_paths = false;
  created_sub_path_mode = 0;
  timeout = nanoseconds 1;
}

-- The pod "u" with the container "c".
abbrev pub node_plan : MountPlan
node_plan = record {
  pv = record {
    name = 112 ∷ [];
    volume_handle = [];
    server = 49 ∷ [];
    share = 47 ∷ [];
    sub_dir = [];
    mount_options = [];
  };
  pod_uid = 117 ∷ [];
  container_name = [];
  container_id = 99 ∷ [];
  source_sub_path = 97 ∷ 47 ∷ 98 ∷ [];
  target_path = 47 ∷ 116 ∷ [];
}
