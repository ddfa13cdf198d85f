-- ===== src/Go/Errors.antt =====
-- Error values. A text stands for what fmt.Errorf formats; what it interpolates is dropped.
pub mod Inversion
use kruise_agents_nfs_csi.Prelude.{Bool, true, false, ◌||◌, Option, none, some, String}

-- The errors that callers test for: package-level sentinels of the source, kube.APIError with
-- status 404 (`not_found`), os.ErrNotExist or ENOENT (`no_entry`), EEXIST, ENOSYS, ENOTDIR, ELOOP, ENAMETOOLONG, and a context's end.
pub data Sentinel : Type 0 where
  bad_request node_operation mount_disabled bad_source_sub_path : Sentinel
  desired_mount_stale desired_mount_unauthorized not_found no_entry context_ended : Sentinel
  already_exists no_system_call not_directory symlink_loop name_too_long : Sentinel

unfoldable pub sentinel_dec : Discrete Sentinel
sentinel_dec = hlevel

pub data Err : Type 0 where
  -- errors.New of a package-level variable
  sentinel : Sentinel → Err
  -- fmt.Errorf with no %w
  text : String → Err
  -- fmt.Errorf("...: %w", err)
  wrap : String → Err → Err
  -- fmt.Errorf("%w: %v", err, detail): only the first is in the chain
  annotate : Err → Err → Err
  -- errors.Join
  join : Err → Err → Err

-- errors.Is, and errors.As for kube.APIError
unfoldable pub is : Sentinel → Err → Bool
unfolding sentinel_dec
is target (sentinel s) = elim (sentinel_dec s target) [ yes _ ↦ true | no _ ↦ false ]
is target (text t) = false
is target (wrap t e) = is target e
is target (annotate e detail) = is target e
is target (join e f) = is target e || is target f

-- errors.Join drops a nil error.
unfoldable pub join_opt : Err → Option Err → Err
join_opt e none = e
join_opt e (some f) = join e f

-- (value, error): a Go function that fails returns no value that its callers read.
pub data Result {ℓ} (A : Type ℓ) : Type ℓ where
  ok : A → Result A
  err : Err → Result A

-- `v, err := ...; if err != nil { return err }`
infixl 5 ◌>>=◌
abbrev pub ◌>>=◌ {ℓ κ} : {V : Type ℓ} {W : Type κ} → Result V → (V → Result W) → Result W
err e >>= next = err e
ok value >>= next = next value

-- The same, for code that returns an error only.
infixl 5 ◌>>◌
abbrev pub ◌>>◌ {ℓ} : {W : Type ℓ} → Result (Unit {0}) → Result W → Result W
check >> next = check >>= λ passed. next

-- `if cond { return err }`
abbrev pub fail_if : Bool → Err → Result (Unit {0})
fail_if true e = err e
fail_if false e = ok tt

-- `if err != nil { return fmt.Errorf(...) }` with a rewritten error
abbrev pub map_err {ℓ} : {A : Type ℓ} → (Err → Err) → Result A → Result A
map_err f (ok a) = ok a
map_err f (err e) = err (f e)
