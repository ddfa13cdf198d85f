-- ===== src/Config/Flags.antt =====
-- bindWrapperFlags of cmd/wrapper/main.go: what each flag sets. Package flag reads the arguments, and
-- applies them one after the other.
use kruise_agents_nfs_csi.Prelude.{Bool, Option, none, some, List, [], ◌∷◌, ◌==◌, if◌then◌else◌}
use kruise_agents_nfs_csi.Go.Text.{Str, codes, str_eq}
use kruise_agents_nfs_csi.Go.Errors.{Result, ok, err, text, ◌>>=◌}
use kruise_agents_nfs_csi.Config.{WrapperConfig}
use kruise_agents_nfs_csi.Config.Load.{parse_bool}
use kruise_agents_nfs_csi.Config.Modes.{parse_file_mode}

-- `--name=true` and the like, for the flags of flag.BoolVar; `none` is a flag of another kind.
unfoldable pub bool_flag : Str → Bool → WrapperConfig → Option WrapperConfig
bool_flag name value cfg =
    if name == codes "enable-mount"
    then some (record cfg { enable_mount = value })
    else if name == codes "unstage-after-mount"
    then some (record cfg { unstage_after_mount = value })
    else if name == codes "create-missing-subpaths"
    then some (record cfg { create_missing_sub_paths = value })
    else none

-- The flags of flag.StringVar.
unfoldable pub string_flag : Str → Str → WrapperConfig → Option WrapperConfig
string_flag name value cfg =
    if name == codes "driver-name"
    then some (record cfg { driver_name = value })
    else if name == codes "socket-path"
    then some (record cfg { socket_path = value })
    else if name == codes "token-audience"
    then some (record cfg { token_audience = value })
    else if name == codes "kube-token-file"
    then some (record cfg { kube_token_file = value })
    else if name == codes "kube-ca-file"
    then some (record cfg { kube_ca_file = value })
    else if name == codes "staging-root"
    then some (record cfg { staging_root = value })
    else if name == codes "mount-state-dir"
    then some (record cfg { mount_state_dir = value })
    else if name == codes "node-name"
    then some (record cfg { node_name = value })
    else if name == codes "host-proc-root"
    then some (record cfg { host_proc_root = value })
    else if name == codes "export-root-key-file"
    then some (record cfg { export_root_key_file = value })
    else none

-- (fileModeValue) Set: a value that does not parse changes nothing
unfoldable pub set_file_mode : Str → WrapperConfig → Result WrapperConfig
set_file_mode raw cfg = do
  mode ← parse_file_mode raw
  ok (record cfg { created_sub_path_mode = mode })

abbrev pub undefined : Option WrapperConfig → Result WrapperConfig
undefined none = err (text "flag provided but not defined")
undefined (some cfg) = ok cfg

-- One flag, as bindWrapperFlags binds it.
unfoldable pub set_flag : Str → Str → WrapperConfig → Result WrapperConfig
unfolding bool_flag string_flag set_file_mode
set_flag name value cfg =
    if name == codes "created-subpath-mode"
    then set_file_mode value cfg
    else elim (string_flag name value cfg) [
      | some changed ↦ ok changed
      | none ↦ (parse_bool value >>= λ b. undefined (bool_flag name b cfg))
    ]

unfoldable pub set_flags : List (Str × Str) → WrapperConfig → Result WrapperConfig
unfolding set_flag
set_flags [] cfg = ok cfg
set_flags ((name, value) ∷ flags) cfg = set_flag name value cfg >>= set_flags flags
