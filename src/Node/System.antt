-- ===== src/Node/System.antt =====
-- internal/node/mounter_linux.go: the thread that the mounter runs on, and the system calls it makes.
-- The kernel is a parameter; its state, beside the thread's own, is of type D, and what a file
-- descriptor refers to of type P.
pub mod Held
pub mod Stays
use kruise_agents_nfs_csi.Prelude.{
  ℕ, ◌≡◌, ◌≢◌, Bool, true, false, List, [], ◌∷◌, Option, none, some, ◌==◌, nat_eq, All,
  if◌then◌else◌,
}
use kruise_agents_nfs_csi.Go.Text.{Str}
use kruise_agents_nfs_csi.Go.Errors.{Err, Result, ok, err, text}
use kruise_agents_nfs_csi.Go.Exec.{Exec}
use kruise_agents_nfs_csi.Node.MountInfo.{Scanned}
use kruise_agents_nfs_csi.Node.Process.{DirEntry}

-- The attributes of a thread that setns, chroot and chdir change.
pub record Attributes (P : Type 0) : Type 0 where
  pub namespace : P
  pub root : P
  pub cwd : P

-- How a path is opened: O_PATH|O_DIRECTORY|O_NOFOLLOW, O_PATH|O_DIRECTORY, O_RDONLY|O_DIRECTORY, and
-- os.Open.
pub data Flags : Type 0 where
  path_no_follow path_directory directory file : Flags

-- The descriptors that the running call has opened and not closed, the newest first.
abbrev pub Open : Type 0 → Type 0
Open P = List (ℕ × P)

-- The calls of packages unix, syscall, os and os/exec, and ctx.Err. Paths are resolved by the thread's
-- attributes.
pub record Kernel (D P : Type 0) : Type 0 where
  pub context_error : D → Option Err
  pub next_fd : D → Open P → ℕ
  pub open_file : Flags → Str → Attributes P → Exec D P
  pub open_at : P → Str → Exec D P
  pub mkdir_at : P → Str → ℕ → Exec D (Unit {0})
  pub mkdir_all : Str → ℕ → Attributes P → Exec D (Unit {0})
  pub open_tree : Str → Attributes P → Exec D P
  pub open_tree_at : P → Exec D P
  pub move_mount : P → P → Exec D (Unit {0})
  pub bind_mount : Str → Str → Open P → Attributes P → Exec D (Unit {0})
  pub unmount : Str → Attributes P → Exec D (Unit {0})
  pub remove : Str → Attributes P → Exec D (Unit {0})
  pub read_dir : Str → Attributes P → D → Result (List DirEntry)
  pub read_file : Str → Attributes P → D → Result Str
  pub scan_file : Str → Attributes P → D → Result Scanned
  pub run : List Str → Attributes P → Exec D Str
  pub unshare_fs : Exec D (Unit {0})
  pub setns : P → Attributes P → Exec D (Attributes P)
  pub fchdir : P → Attributes P → Exec D (Attributes P)
  pub chroot_here : Attributes P → Exec D (Attributes P)
  pub chdir_to_root : Attributes P → Exec D (Attributes P)

pub record Thread (D P : Type 0) : Type 0 where
  pub disk : D
  pub held : Open P
  pub attributes : Attributes P

-- The descriptor is none of these.
abbrev pub IsUnused : {P : Type 0} → ℕ → Open P → Type 0
IsUnused {P = P} fd = All (λ (entry : ℕ × P). entry.0 ≢ fd)

-- What a descriptor refers to.
unfoldable pub referent : {P : Type 0} → ℕ → Open P → Option P
referent fd [] = none
referent fd ((n, p) ∷ held) = let rest = referent fd held in if n == fd then some p else rest

-- close, whose error the source ignores
unfoldable pub drop_fd : {P : Type 0} → ℕ → Open P → Open P
drop_fd fd [] = []
drop_fd fd ((n, p) ∷ held) = let rest = drop_fd fd held in if n == fd then held else (n, p) ∷ rest

module _ {D P : Type 0} where
  -- A call that changes the kernel's state only.
  unfoldable pub call : {A : Type 0} → (Attributes P → Exec D A) → Exec (Thread D P) A
  call f t = let (r, disk) = f t.attributes t.disk in (r, record t { disk = disk })

  abbrev pub with_referent :
      {A : Type 0} → Option P → (P → Exec (Thread D P) A) → Exec (Thread D P) A
  with_referent none f t = (err (text "bad file descriptor"), t)
  with_referent (some p) f t = f p t

  -- A call that takes a descriptor.
  unfoldable pub call_with : {A : Type 0} → ℕ → (P → Exec (Thread D P) A) → Exec (Thread D P) A
  unfolding referent
  call_with fd f t = with_referent (referent fd t.held) f t

  abbrev pub set_attributes : Result (Attributes P) → Thread D P → Result (Unit {0}) × Thread D P
  set_attributes (err e) t = (err e, t)
  set_attributes (ok a) t = (ok tt, record t { attributes = a })

  -- A call that changes the thread's attributes.
  unfoldable pub change : (Attributes P → Exec D (Attributes P)) → Exec (Thread D P) (Unit {0})
  unfolding call
  change f t = let (r, after) = call f t in set_attributes r after

  unfoldable pub close_fd : ℕ → Thread D P → Thread D P
  unfolding drop_fd
  close_fd fd t = record t { held = drop_fd fd t.held }

  -- `defer`: runs whatever the rest returns.
  unfoldable pub defer :
      {A : Type 0} → (Thread D P → Thread D P) → Exec (Thread D P) A → Exec (Thread D P) A
  defer f m t = let (r, after) = m t in (r, f after)

module _ {D P : Type 0} (k : Kernel D P) where
  abbrev pub hold : Result P → Thread D P → Result ℕ × Thread D P
  hold (err e) t = (err e, t)
  hold (ok p) t =
      (ok (k.next_fd t.disk t.held), record t { held = (k.next_fd t.disk t.held, p) ∷ t.held })

  -- A call that returns a new descriptor.
  unfoldable pub open_fd : (Attributes P → Exec D P) → Exec (Thread D P) ℕ
  unfolding call
  open_fd f t = let (r, after) = call f t in hold r after
