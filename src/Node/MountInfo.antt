-- ===== src/Node/MountInfo.antt =====
-- internal/node/mounter_linux.go: reading of /proc/<pid>/mountinfo, whose lines bufio.Scanner gives.
pub mod Escapes
pub mod Table
pub mod Nested
use kruise_agents_nfs_csi.Prelude.{
  ℕ, Bool, true, false, ◌&&◌, List, [], ◌∷◌, ◌++◌, Option, none, some, nat_eq, ltb, length, ◌==◌,
  if◌then◌else◌,
}
use kruise_agents_nfs_csi.Go.Text.{Str, str_eq, has_prefix}
use kruise_agents_nfs_csi.Go.Fields.{fields}
use kruise_agents_nfs_csi.Go.Clean.{slash, clean}
use kruise_agents_nfs_csi.Go.Errors.{Err, Result, ok, err, wrap}

-- The byte that `\ooo` stands for, among the four that are decoded.
unfoldable pub escaped : ℕ → ℕ → ℕ → ℕ → Option ℕ
escaped x a b c =
    if x == 92 && a == 48 && b == 52 && c == 48
    then some 32
    else if x == 92 && a == 48 && b == 49 && c == 49
    then some 9
    else if x == 92 && a == 48 && b == 49 && c == 50
    then some 10
    else if x == 92 && a == 49 && b == 51 && c == 52
    then some 92
    else none

-- decodeMountInfoPath
unfoldable pub decode_mount_info_path : Str → Str
unfolding escaped
decode_mount_info_path [] = []
decode_mount_info_path (x ∷ []) = x ∷ []
decode_mount_info_path (x ∷ a ∷ []) = x ∷ a ∷ []
decode_mount_info_path (x ∷ a ∷ b ∷ []) = x ∷ a ∷ b ∷ []
decode_mount_info_path (x ∷ a ∷ b ∷ c ∷ s) =
    let kept = decode_mount_info_path (a ∷ b ∷ c ∷ s) in
    let rest = decode_mount_info_path s in
    elim (escaped x a b c) [ none ↦ x ∷ kept | some byte ↦ byte ∷ rest ]

-- fields[4], if the line has five fields
unfoldable pub fifth : List Str → Option Str
fifth (a ∷ b ∷ c ∷ d ∷ e ∷ rest) = some e
fifth _ = none

unfoldable pub decoded : Option Str → Option Str
decoded none = none
decoded (some field) = some (decode_mount_info_path field)

-- The mount point that a line names.
unfoldable pub mount_path : Str → Option Str
unfolding fifth decoded
mount_path line = decoded (fifth (fields line))

-- The test of isMountPoint's loop.
unfoldable pub names_path : Str → Option Str → Bool
names_path path none = false
names_path path (some mounted) = mounted == path

-- A file that has been scanned: the lines, and the error that has ended the scan.
pub record Scanned : Type 0 where
  pub lines : List Str
  pub error : Option Err

abbrev scan_error : Option Err → Result Bool
scan_error none = ok false
scan_error (some e) = err (wrap "scan mountinfo" e)

-- The loop of isMountPoint, and what follows it.
unfoldable pub scan_for : Str → List Str → Option Err → Result Bool
unfolding names_path
scan_for path [] error = scan_error error
scan_for path (line ∷ lines) error =
    let rest = scan_for path lines error in
    if names_path path (mount_path line) then ok true else rest

-- isMountPoint, on what opening and scanning the file gives
unfoldable pub is_mount_point : Result Scanned → Str → Result Bool
is_mount_point (err e) target = err (wrap "open mountinfo" e)
is_mount_point (ok file) target = scan_for (clean target) file.lines file.error

-- The test of mountPointsUnderRoot's loop.
unfoldable pub keep_under : Str → Option Str → List Str → List Str
keep_under prefix none mounts = mounts
keep_under prefix (some mounted) mounts =
    if has_prefix mounted prefix then mounted ∷ mounts else mounts

unfoldable pub collect_under : Str → List Str → List Str
unfolding keep_under
collect_under prefix [] = []
collect_under prefix (line ∷ lines) =
    keep_under prefix (mount_path line) (collect_under prefix lines)

-- sort.Slice by length, the longest first; the order among paths of one length is left open by
-- sort.Slice, and here that of the file
unfoldable pub place_path : Str → List Str → List Str
place_path path [] = path ∷ []
place_path path (next ∷ mounts) =
    let rest = place_path path mounts in
    if ltb (length path) (length next) then next ∷ rest else path ∷ next ∷ mounts

unfoldable pub sort_paths : List Str → List Str
unfolding place_path
sort_paths [] = []
sort_paths (path ∷ mounts) = place_path path (sort_paths mounts)

abbrev sorted_unless : Option Err → List Str → Result (List Str)
sorted_unless none mounts = ok (sort_paths mounts)
sorted_unless (some e) mounts = err (wrap "scan mountinfo" e)

-- mountPointsUnderRoot
unfoldable pub mount_points_under_root : Result Scanned → Str → Result (List Str)
mount_points_under_root (err e) root = err (wrap "open mountinfo" e)
mount_points_under_root (ok file) root =
    sorted_unless file.error (collect_under (clean root ++ (slash ∷ [])) file.lines)
