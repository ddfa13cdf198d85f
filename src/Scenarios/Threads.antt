-- ===== src/Scenarios/Threads.antt =====
-- The mounter on a concrete kernel, the queue of retries, and the mode of created directories.
use kruise_agents_nfs_csi.Prelude.{
  ◌*◌, ◌<◌, ◌≤◌, ◌^◌, arith, ◌-◌, ◌≡◌, refl, false, List, [], ◌∷◌, ℕ_discrete,
}
use kruise_agents_nfs_csi.Go.Text.{Str, codes, str_dec}
use kruise_agents_nfs_csi.Go.Errors.{Result, ok, err, text, is, sentinel_dec}
use kruise_agents_nfs_csi.Config.{WrapperConfig, Duration, nanoseconds}
use kruise_agents_nfs_csi.Config.Modes.{
  parse_uint_octal, parse_digits, parse_file_mode, format_file_mode, file_mode_of, unix_mode_of,
}
use kruise_agents_nfs_csi.Config.Modes.RoundTrip.{parse-format_file_mode}
use kruise_agents_nfs_csi.Config.Load.{load_wrapper_config, strict_file_mode_env}
use kruise_agents_nfs_csi.Config.Flags.{set_flags, set_flag, set_file_mode}
use kruise_agents_nfs_csi.Config.Checked.{IsMode, configured-IsMode}
use kruise_agents_nfs_csi.Node.Tree.{open_directory_no_follow}
use kruise_agents_nfs_csi.Node.Tree.Entered.{Outcome}
use kruise_agents_nfs_csi.Node.Tree.Walked.{Reached, open_directory_no_follow-Outcome}
use kruise_agents_nfs_csi.Node.Linux.{mount, unmount}
use kruise_agents_nfs_csi.Node.Linux.Back.{IsBack, mount-IsBack, unmount-IsBack}
use kruise_agents_nfs_csi.Wrapper.Reconciler.Retries.{
  Retry, is_final, first_attempt, marked, sent, received,
}
use kruise_agents_nfs_csi.Go.Maps.{lookup, insert}
use kruise_agents_nfs_csi.Wrapper.Desired.{key}
use kruise_agents_nfs_csi.Wrapper.Reconciler.Retries.Attempts.{
  Counted, begun, counted, work, starts, Counted-bound,
}
use kruise_agents_nfs_csi.Scenarios.Fixture.{desired, cfg}
use kruise_agents_nfs_csi.Scenarios.Machine.{
  kernel, fresh, kernel-Documented, thread, node_cfg, node_plan,
}

-- "/s/p", and "a/b" below it
open_directory_no_follow-Outcome_example :
    Outcome kernel
      (Reached kernel (47 ∷ 115 ∷ []) (97 ∷ 47 ∷ 98 ∷ []) (thread []).attributes)
      []
      (open_directory_no_follow kernel (47 ∷ 115 ∷ []) (97 ∷ 47 ∷ 98 ∷ []) false 0 (thread []))
open_directory_no_follow-Outcome_example =
    open_directory_no_follow-Outcome kernel fresh (47 ∷ 115 ∷ []) (97 ∷ 47 ∷ 98 ∷ []) false 0
      (thread [])

mount-IsBack_example :
    IsBack kernel node_cfg.host_proc_root
      (thread [])
      (mount kernel node_cfg node_plan (thread [])).1
mount-IsBack_example = mount-IsBack kernel node_cfg kernel-Documented node_plan (thread [])

-- The target "/t" is mounted.
unmount-IsBack_example :
    IsBack kernel node_cfg.host_proc_root
      (thread ((47 ∷ 116 ∷ []) ∷ []))
      (unmount kernel node_cfg node_plan (thread ((47 ∷ 116 ∷ []) ∷ []))).1
unmount-IsBack_example =
    unmount-IsBack kernel node_cfg kernel-Documented node_plan (thread ((47 ∷ 116 ∷ []) ∷ []))

-- "2750"
abbrev mode_text : Str
mode_text = 50 ∷ 55 ∷ 53 ∷ 48 ∷ []

mode_read : parse_uint_octal (2 ^ 16 - 1) mode_text ≡ ok 0o2750
unfolding parse_uint_octal parse_digits
mode_read = refl

mode_parsed : parse_file_mode mode_text ≡ ok (file_mode_of 0o2750)
unfolding parse_file_mode parse_uint_octal parse_digits ℕ_discrete
mode_parsed = refl

parse-format_file_mode_example :
    (0 < 0o2750)
    × (0o2750 < 0o10000)
    × (unix_mode_of (file_mode_of 0o2750) ≡ 0o2750)
    × (parse_file_mode (format_file_mode (file_mode_of 0o2750)) ≡ ok (file_mode_of 0o2750))
parse-format_file_mode_example =
    parse-format_file_mode mode_text (file_mode_of 0o2750) 0o2750 mode_read mode_parsed

abbrev or_fixture : Result WrapperConfig → WrapperConfig
or_fixture (ok loaded) = loaded
or_fixture (err e) = cfg

-- Nothing is set in the environment.
abbrev unset : Str → Str
unset name = []

abbrev one_nanosecond : Str → Result Duration
one_nanosecond value = ok (nanoseconds 1)

abbrev loaded_config : WrapperConfig
loaded_config = or_fixture (load_wrapper_config unset one_nanosecond)

config_loaded : load_wrapper_config unset one_nanosecond ≡ ok loaded_config
unfolding load_wrapper_config strict_file_mode_env str_dec
config_loaded = refl

abbrev mode_flags : List (Str × Str)
mode_flags = (codes "created-subpath-mode", mode_text) ∷ []

abbrev flagged_config : WrapperConfig
flagged_config = or_fixture (set_flags mode_flags loaded_config)

config_flagged : set_flags mode_flags loaded_config ≡ ok flagged_config
unfolding set_flags set_flag set_file_mode parse_file_mode parse_uint_octal parse_digits codes
    ℕ_discrete str_dec
config_flagged = refl

configured-IsMode_example : IsMode flagged_config.created_sub_path_mode
configured-IsMode_example =
    configured-IsMode unset one_nanosecond mode_flags loaded_config flagged_config config_loaded
      config_flagged

abbrev failed : Result (Unit {0})
failed = err (text "mount failed")

abbrev first : Retry
first = first_attempt desired

-- A reconciliation has failed, its retry has been sent, and a worker has received it.
one_taken : Counted 1 1 (record {
  retrying = (key desired, tt) ∷ [];
  queue = [];
  held = first ∷ [];
  sending = [];
  leaving = [];
})
unfolding is_final is sentinel_dec lookup insert work starts
one_taken = counted (received _ first [] refl) (
    counted (sent _ first [] [] refl (omega arith))
      (counted (marked _ desired failed refl refl) begun))

Counted-bound_example : 1 ≤ 10 * 1
Counted-bound_example = Counted-bound one_taken
