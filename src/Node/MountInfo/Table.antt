-- ===== src/Node/MountInfo/Table.antt =====
-- isMountPoint of internal/node/mounter_linux.go against the table of mounts that the file shows.
use kruise_agents_nfs_csi.Prelude.{
  ◌≡◌, ◌≢◌, refl, ap, ◌∙◌, Bool, List, [], ◌∷◌, ◌++◌, none, some, arith, map, any, All, ◌==◌,
}
use kruise_agents_nfs_csi.Go.Text.{Str, str_eq}
use kruise_agents_nfs_csi.Go.Fields.{fields, IsUnbroken, fields-append}
use kruise_agents_nfs_csi.Go.Clean.{clean}
use kruise_agents_nfs_csi.Go.Errors.{ok}
use kruise_agents_nfs_csi.Node.MountInfo.{
  fifth, decoded, mount_path, names_path, scan_for, is_mount_point,
}
use kruise_agents_nfs_csi.Node.MountInfo.Escapes.{mangle, decode-mangle}

-- A mount as proc_pid_mountinfo(5) lays it out: four fields, the mount point, and the rest.
pub record Mount : Type 0 where
  pub mount_id : Str
  pub parent_id : Str
  pub device : Str
  pub root : Str
  pub point : Str
  pub rest : Str

-- The line of a mount; the mount point is escaped.
abbrev pub line_of : Mount → Str
line_of m =
    m.mount_id
    ++ (32
        ∷ (m.parent_id
            ++ (32 ∷ (m.device ++ (32 ∷ (m.root ++ (32 ∷ (mangle m.point ++ (32 ∷ m.rest)))))))))

-- Not empty, and without white space.
abbrev pub IsWord : Str → Type 0
IsWord s = (s ≢ []) × IsUnbroken s

-- The first four fields are words, and so is the mount point in its escaped form: it may have
-- spaces, tabs and line feeds, but no white space that the kernel does not escape.
pub record IsShown (m : Mount) : Type 0 where
  pub mount_id : IsWord m.mount_id
  pub parent_id : IsWord m.parent_id
  pub device : IsWord m.device
  pub root : IsWord m.root
  pub point : IsWord (mangle m.point)

fields-word : (s t : Str) → IsWord s → fields (s ++ (32 ∷ t)) ≡ s ∷ fields t
fields-word [] t (n, u) = absurd (n refl)
fields-word (c ∷ s) t (n, u) = fields-append c s t u

fields-line_of :
    (m : Mount)
    → IsShown m
    → fields (line_of m)
      ≡ m.mount_id ∷ m.parent_id ∷ m.device ∷ m.root ∷ mangle m.point ∷ fields m.rest
fields-line_of m w =
    rw
      (
        fields-word m.mount_id _ w.mount_id,
        fields-word m.parent_id _ w.parent_id,
        fields-word m.device _ w.device,
        fields-word m.root _ w.root,
        fields-word (mangle m.point) m.rest w.point,
      )
      refl

mount_path-line_of : (m : Mount) → IsShown m → mount_path (line_of m) ≡ some m.point
unfolding mount_path fifth
mount_path-line_of m w =
    ap (λ words. decoded (fifth words)) (fields-line_of m w) ∙ ap some (decode-mangle m.point)

-- The mount stands at the path.
abbrev pub is_at : Str → Mount → Bool
is_at path m = m.point == path

scan_for-table :
    (path : Str) (table : List Mount)
    → All IsShown table
    → scan_for path (map line_of table) none ≡ ok (any (is_at path) table)
unfolding scan_for any names_path
scan_for-table path [] w = refl
scan_for-table path (m ∷ table) w =
    rw (mount_path-line_of m w.0) (ground (arith, scan_for-table path table w.1))

-- isMountPoint finds a path exactly if the table that the file shows has a mount there, the path in
-- its cleaned form.
pub is_mount_point-table :
    (table : List Mount) (target : Str)
    → All IsShown table
    → is_mount_point (ok (record { lines = map line_of table; error = none })) target
      ≡ ok (any (is_at (clean target)) table)
unfolding is_mount_point
is_mount_point-table table target w = scan_for-table (clean target) table w
