-- ===== src/Scenarios/Mounts.antt =====
-- Concrete mountinfo files, process directories, volume ids and file modes.
use kruise_agents_nfs_csi.Prelude.{
  ◌≡◌, refl, ◌&&◌, true, false, List, [], ◌∷◌, ◌++◌, none, ℕ_discrete, arith, any, map,
}
use kruise_agents_nfs_csi.Go.Text.{Str, codes, str_dec, has_prefix, space_1, space_2, space_3}
use kruise_agents_nfs_csi.Go.Fields.{scan, flush, fields}
use kruise_agents_nfs_csi.Go.Split.{split, join, cons_head}
use kruise_agents_nfs_csi.Go.Clean.{slash, is_abs, clean, clean_parts, resolve, enter, back, render}
use kruise_agents_nfs_csi.Go.Search.{contains, cut_after, replace_all}
use kruise_agents_nfs_csi.Go.Decimal.{atoi, digits_value}
use kruise_agents_nfs_csi.Go.Errors.{Result, ok}
use kruise_agents_nfs_csi.Node.MountInfo.{
  decode_mount_info_path, is_mount_point, scan_for, names_path, mount_path, fifth, decoded, escaped,
  mount_points_under_root, collect_under, keep_under, sort_paths, place_path,
}
use kruise_agents_nfs_csi.Node.MountInfo.Escapes.{mangle, mangle_byte, decode-mangle}
use kruise_agents_nfs_csi.Node.MountInfo.Table.{Mount, line_of, is_at, is_mount_point-table}
use kruise_agents_nfs_csi.Node.MountInfo.Nested.{
  InnerFirst, lists_path, is_mounted_in, mount_points_under_root-Found,
}
use kruise_agents_nfs_csi.Node.Process.{
  DirEntry, find_container_pid, normalize_container_id, pod_needles, container_needles, find_pid,
  candidate, is_numeric, names_container, contains_any,
}
use kruise_agents_nfs_csi.Node.Process.Found.{Found, find_container_pid-Found}
use kruise_agents_nfs_csi.Kube.Client.{persistent_volume_path}
use kruise_agents_nfs_csi.Go.Search.{path_join}
use kruise_agents_nfs_csi.Client.Publish.{derive_pv_name_from_volume_id, is_lower_alpha_numeric}
use kruise_agents_nfs_csi.Client.Publish.Names.{derive_pv_name_from_volume_id-append}

-- "/a b\c"
abbrev odd_path : Str
odd_path = 47 ∷ 97 ∷ 32 ∷ 98 ∷ 92 ∷ 99 ∷ []

decode-mangle_example : decode_mount_info_path (mangle odd_path) ≡ odd_path
decode-mangle_example = decode-mangle odd_path

abbrev mounted : Mount
mounted = record {
  mount_id = 49 ∷ [];
  parent_id = 50 ∷ [];
  device = 51 ∷ [];
  root = 47 ∷ [];
  point = odd_path;
  rest = 114 ∷ [];
}

is_mount_point-table_example :
    is_mount_point (ok (record { lines = map line_of (mounted ∷ []); error = none })) odd_path
    ≡ ok (any (is_at (clean odd_path)) (mounted ∷ []))
unfolding scan flush space_1 space_2 space_3 mangle mangle_byte ℕ_discrete
is_mount_point-table_example = is_mount_point-table (mounted ∷ []) odd_path (
  record {
    mount_id = (λ e. ground (arith, e), refl);
    parent_id = (λ e. ground (arith, e), refl);
    device = (λ e. ground (arith, e), refl);
    root = (λ e. ground (arith, e), refl);
    point = (λ e. ground (arith, e), refl);
  },
  tt,
)

-- "1 2 3 / /s/p r" and "1 2 3 / /s/p/q r"
abbrev outer_line : Str
outer_line = 49 ∷ 32 ∷ 50 ∷ 32 ∷ 51 ∷ 32 ∷ 47 ∷ 32 ∷ 47 ∷ 115 ∷ 47 ∷ 112 ∷ 32 ∷ 114 ∷ []

abbrev inner_line : Str
inner_line = 49 ∷ 32 ∷ 50 ∷ 32 ∷ 51 ∷ 32 ∷ 47 ∷ 32 ∷ 47 ∷ 115 ∷ 47 ∷ 112 ∷ 47 ∷ 113 ∷ 32 ∷ 114 ∷ []

abbrev outer_path : Str
outer_path = 47 ∷ 115 ∷ 47 ∷ 112 ∷ []

abbrev inner_path : Str
inner_path = 47 ∷ 115 ∷ 47 ∷ 112 ∷ 47 ∷ 113 ∷ []

-- "/s"
abbrev staging_root : Str
staging_root = 47 ∷ 115 ∷ []

nested_mounts :
    mount_points_under_root
      (ok (record { lines = outer_line ∷ inner_line ∷ []; error = none }))
      staging_root
    ≡ ok (inner_path ∷ outer_path ∷ [])
unfolding mount_points_under_root collect_under keep_under sort_paths place_path mount_path fifth
    decoded decode_mount_info_path escaped fields scan flush space_1 space_2 space_3 clean
    clean_parts resolve enter back render is_abs has_prefix split cons_head join ℕ_discrete str_dec
nested_mounts = refl

mount_points_under_root-Found_example :
    InnerFirst (inner_path ∷ outer_path ∷ [])
    × ((p : Str)
        → lists_path p (inner_path ∷ outer_path ∷ []) ≡ (
            has_prefix p (clean staging_root ++ (slash ∷ []))
            && is_mounted_in p (outer_line ∷ inner_line ∷ [])))
mount_points_under_root-Found_example =
    mount_points_under_root-Found (record { lines = outer_line ∷ inner_line ∷ []; error = none })
      staging_root (inner_path ∷ outer_path ∷ []) nested_mounts

-- A mount point with U+00A0 in it, which the kernel writes as it is: the line is cut there, and the
-- mount is not found.
missed_mount :
    is_mount_point
      (ok (record {
        lines =
            (49 ∷ 32 ∷ 50 ∷ 32 ∷ 51 ∷ 32 ∷ 47 ∷ 32 ∷ 47 ∷ 97 ∷ 0xC2 ∷ 0xA0 ∷ 98 ∷ 32 ∷ 114 ∷ [])
            ∷ [];
        error = none;
      }))
      (47 ∷ 97 ∷ 0xC2 ∷ 0xA0 ∷ 98 ∷ [])
    ≡ ok false
unfolding is_mount_point scan_for names_path mount_path fifth decoded decode_mount_info_path escaped
    fields scan flush space_1 space_2 space_3 clean clean_parts resolve enter back render is_abs
    has_prefix split cons_head join ℕ_discrete str_dec
missed_mount = refl

-- "7" with the control groups "u/c", and "x".
abbrev processes : List DirEntry
processes =
    record { name = 120 ∷ []; is_dir = true } ∷ record { name = 55 ∷ []; is_dir = true } ∷ []

abbrev uid : Str
uid = 117 ∷ []

abbrev id : Str
id = 99 ∷ []

abbrev read_groups : Str → Result Str
read_groups path = ok (117 ∷ 47 ∷ 99 ∷ [])

seven_found : find_container_pid (λ path. ok processes) read_groups [] uid id ≡ ok 7
unfolding find_container_pid find_pid candidate is_numeric names_container contains_any contains
    has_prefix atoi digits_value normalize_container_id cut_after codes pod_needles
    container_needles replace_all any ℕ_discrete str_dec
seven_found = refl

find_container_pid-Found_example :
    Found read_groups []
      (pod_needles uid)
      (container_needles (normalize_container_id id))
      7
      processes
find_container_pid-Found_example =
    find_container_pid-Found (λ path. ok processes) read_groups [] uid id processes 7 refl
      seven_found

-- "pv-1" and "abc123"
abbrev volume_name : Str
volume_name = 112 ∷ 118 ∷ 45 ∷ 49 ∷ []

abbrev name_suffix : Str
name_suffix = 97 ∷ 98 ∷ 99 ∷ 49 ∷ 50 ∷ 51 ∷ []

derive_pv_name_from_volume_id-append_example :
    derive_pv_name_from_volume_id (volume_name ++ (45 ∷ name_suffix)) ≡ ok volume_name
unfolding is_lower_alpha_numeric any str_dec ℕ_discrete
derive_pv_name_from_volume_id-append_example =
    derive_pv_name_from_volume_id-append volume_name name_suffix (λ e. ground (arith, e)) refl refl

-- A volume name with dot-dot segments leads to another resource.
escaped_path :
    persistent_volume_path (codes "../namespaces/n/pods/p") ≡ codes "/api/v1/namespaces/n/pods/p"
unfolding persistent_volume_path path_join codes clean clean_parts resolve enter back render is_abs
    has_prefix split cons_head join ℕ_discrete str_dec
escaped_path = refl
