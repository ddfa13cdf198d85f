-- ===== src/Node/MountInfo/Escapes.antt =====
-- decodeMountInfoPath of internal/node/mounter_linux.go undoes the kernel's escaping of mount points.
use kruise_agents_nfs_csi.Prelude.{
  ℕ, ◌≡◌, ◌≢◌, refl, ap, ◌∙◌, [], ◌∷◌, arith, nat_eq, ℕ_discrete, ◌==◌, if◌then◌else◌,
}
use kruise_agents_nfs_csi.Go.Text.{Str}
use kruise_agents_nfs_csi.Node.MountInfo.{decode_mount_info_path}

-- A byte as the kernel writes it (proc_pid_mountinfo(5)): space, tab, line feed and backslash are
-- three octal digits behind a backslash.
unfoldable pub mangle_byte : ℕ → Str → Str
mangle_byte c rest =
    if c == 32
    then 92 ∷ 48 ∷ 52 ∷ 48 ∷ rest
    else if c == 9
    then 92 ∷ 48 ∷ 49 ∷ 49 ∷ rest
    else if c == 10
    then 92 ∷ 48 ∷ 49 ∷ 50 ∷ rest
    else if c == 92
    then 92 ∷ 49 ∷ 51 ∷ 52 ∷ rest
    else c ∷ rest

unfoldable pub mangle : Str → Str
unfolding mangle_byte
mangle [] = []
mangle (c ∷ path) = mangle_byte c (mangle path)

decode_plain :
    (c : ℕ) (s : Str) → c ≢ 92 → decode_mount_info_path (c ∷ s) ≡ c ∷ decode_mount_info_path s
unfolding decode_mount_info_path
decode_plain c [] h = refl
decode_plain c (x ∷ []) h = refl
decode_plain c (x ∷ y ∷ []) h = refl
decode_plain c (x ∷ y ∷ z ∷ s) h = ground arith

decode-mangle_byte :
    (c : ℕ) (s : Str) → decode_mount_info_path (mangle_byte c s) ≡ c ∷ decode_mount_info_path s
unfolding mangle_byte decode_mount_info_path ℕ_discrete
decode-mangle_byte c s = ground (arith, decode_plain c s)

-- Decoding the kernel's form of a mount point gives back the mount point, whatever bytes it has.
pub decode-mangle : (path : Str) → decode_mount_info_path (mangle path) ≡ path
unfolding mangle
decode-mangle [] = unfold decode_mount_info_path in refl
decode-mangle (c ∷ path) = decode-mangle_byte c (mangle path) ∙ ap (λ s. c ∷ s) (decode-mangle path)
