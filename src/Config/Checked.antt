-- ===== src/Config/Checked.antt =====
-- internal/config/config.go and cmd/wrapper/main.go: the mode that directories are created with.
use kruise_agents_nfs_csi.Prelude.{
  ℕ, ◌^◌, ◌<◌, ◌-◌, ◌≡◌, ◌≢◌, ℕ_discrete, refl, ap, subst, Bool, List, [], ◌∷◌, Option, none, some,
  arith,
}
use kruise_agents_nfs_csi.Go.Text.{Str, codes, str_eq}
use kruise_agents_nfs_csi.Go.Errors.{Err, Result, ok, err, ◌>>=◌}
use kruise_agents_nfs_csi.Config.{WrapperConfig, Duration}
use kruise_agents_nfs_csi.Config.Modes.{
  parse_file_mode, parse_uint_octal, unix_mode_of, file_mode_of,
}
use kruise_agents_nfs_csi.Config.Modes.RoundTrip.{parse_file_mode-inv, unix_mode_of-file_mode_of}
use kruise_agents_nfs_csi.Config.Load.{
  strict_file_mode_env, load_wrapper_config, default_created_sub_path_mode, parse_bool,
}
use kruise_agents_nfs_csi.Config.Flags.{
  bool_flag, string_flag, set_file_mode, set_flag, set_flags, undefined,
}

-- An os.FileMode that stands for a Unix mode from 0001 to 07777, and has no other bits.
pub record IsMode (mode : ℕ) : Type 0 where
  pub positive : 0 < unix_mode_of mode
  pub small : unix_mode_of mode < 0o10000
  pub exact : file_mode_of (unix_mode_of mode) ≡ mode

file_mode_of-IsMode : (v : ℕ) → 0 < v → v < 0o10000 → IsMode (file_mode_of v)
file_mode_of-IsMode v lo hi =
    let e = unix_mode_of-file_mode_of v hi in
    record { positive = rw e lo; small = rw e hi; exact = ap file_mode_of e }

unparsed :
    (value : Str) (m : ℕ) (e : Err)
    → parse_uint_octal (2 ^ 16 - 1) value ≡ err e
    → parse_file_mode value ≢ ok m
unfolding parse_file_mode
unparsed value m e r h = ground arith

parse_file_mode-IsMode : (value : Str) (m : ℕ) → parse_file_mode value ≡ ok m → IsMode m
parse_file_mode-IsMode value m h = go (parse_uint_octal (2 ^ 16 - 1) value) refl
  where
    go : (r : Result ℕ) → parse_uint_octal (2 ^ 16 - 1) value ≡ r → IsMode m
    go (err e) re = absurd (unparsed value m e re h)
    go (ok v) re =
        let (lo, hi, e) = parse_file_mode-inv value m v re h in
        subst IsMode e (file_mode_of-IsMode v lo hi)

-- The default, 0770, is one.
default-IsMode : IsMode default_created_sub_path_mode
unfolding unix_mode_of file_mode_of ℕ_discrete
default-IsMode = record { positive = omega arith; small = omega arith; exact = refl }

load-IsMode :
    (getenv : Str → Str) (parse_duration : Str → Result Duration) (cfg : WrapperConfig)
    → load_wrapper_config getenv parse_duration ≡ ok cfg
    → IsMode cfg.created_sub_path_mode
unfolding load_wrapper_config strict_file_mode_env
load-IsMode getenv parse_duration cfg h = ground (
  arith,
  default-IsMode,
  parse_file_mode-IsMode (getenv (codes "WRAPPER_CREATED_SUBPATH_MODE")) cfg.created_sub_path_mode,
)

string_flag-mode :
    (name value : Str) (cfg changed : WrapperConfig)
    → string_flag name value cfg ≡ some changed
    → changed.created_sub_path_mode ≡ cfg.created_sub_path_mode
unfolding string_flag
string_flag-mode name value cfg changed h = ground arith

bool_flag-mode :
    (name : Str) (value : Bool) (cfg changed : WrapperConfig)
    → bool_flag name value cfg ≡ some changed
    → changed.created_sub_path_mode ≡ cfg.created_sub_path_mode
unfolding bool_flag
bool_flag-mode name value cfg changed h = ground arith

set_file_mode-IsMode :
    (value : Str) (cfg changed : WrapperConfig)
    → set_file_mode value cfg ≡ ok changed
    → IsMode changed.created_sub_path_mode
unfolding set_file_mode
set_file_mode-IsMode value cfg changed h =
    parse_file_mode-IsMode value changed.created_sub_path_mode (ground arith)

bool_flag-IsMode :
    (name value : Str) (cfg changed : WrapperConfig)
    → (parse_bool value >>= λ b. undefined (bool_flag name b cfg)) ≡ ok changed
    → IsMode cfg.created_sub_path_mode
    → IsMode changed.created_sub_path_mode
bool_flag-IsMode name value cfg changed h k = go (parse_bool value) h
  where
    checked :
        (r : Option WrapperConfig)
        → ((after : WrapperConfig)
            → r ≡ some after
            → after.created_sub_path_mode ≡ cfg.created_sub_path_mode)
        → undefined r ≡ ok changed
        → IsMode changed.created_sub_path_mode
    checked none same e = ground arith
    checked (some after) same e = ground (arith, same after refl, k)

    go :
        (r : Result Bool)
        → (r >>= λ b. undefined (bool_flag name b cfg)) ≡ ok changed
        → IsMode changed.created_sub_path_mode
    go (err x) e = ground arith
    go (ok b) e = checked (bool_flag name b cfg) (bool_flag-mode name b cfg) e

set_flag-IsMode :
    (name value : Str) (cfg changed : WrapperConfig)
    → set_flag name value cfg ≡ ok changed
    → IsMode cfg.created_sub_path_mode
    → IsMode changed.created_sub_path_mode
unfolding set_flag
set_flag-IsMode name value cfg changed h k = ground (
  arith,
  bool_flag-IsMode name value cfg changed,
  set_file_mode-IsMode value cfg changed,
  λ (after : WrapperConfig). string_flag-mode name value cfg after,
)

set_flags-IsMode :
    (flags : List (Str × Str)) (cfg changed : WrapperConfig)
    → set_flags flags cfg ≡ ok changed
    → IsMode cfg.created_sub_path_mode
    → IsMode changed.created_sub_path_mode
unfolding set_flags
set_flags-IsMode [] cfg changed h k = ground (arith, k)
set_flags-IsMode ((name, value) ∷ flags) cfg changed h k =
    go (set_flag name value cfg) (λ after e. set_flag-IsMode name value cfg after e k)
      (λ after. set_flags-IsMode flags after changed) h
  where
    go :
        (r : Result WrapperConfig)
        → ((after : WrapperConfig) → r ≡ ok after → IsMode after.created_sub_path_mode)
        → ((after : WrapperConfig)
            → set_flags flags after ≡ ok changed
            → IsMode after.created_sub_path_mode
            → IsMode changed.created_sub_path_mode)
        → (r >>= set_flags flags) ≡ ok changed
        → IsMode changed.created_sub_path_mode
    go (err x) one rest e = ground arith
    go (ok after) one rest e = rest after e (one after refl)

-- Whatever the environment and the flags are: if the environment loads and every flag is taken, the
-- mode that directories are created with stands for a Unix mode from 0001 to 07777.
pub configured-IsMode :
    (getenv : Str → Str) (parse_duration : Str → Result Duration) (flags : List (Str × Str))
    (loaded cfg : WrapperConfig)
    → load_wrapper_config getenv parse_duration ≡ ok loaded
    → set_flags flags loaded ≡ ok cfg
    → IsMode cfg.created_sub_path_mode
configured-IsMode getenv parse_duration flags loaded cfg h k =
    set_flags-IsMode flags loaded cfg k (load-IsMode getenv parse_duration loaded h)
