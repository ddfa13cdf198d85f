-- ===== src/Wrapper/RootAuth/Loaded.antt =====
-- internal/wrapper/rootauth.go: the key in the file opens the export root.
use kruise_agents_nfs_csi.Prelude.{ℕ, ◌≡◌, ◌≤◌, true, [], ◌∷◌, length, arith, if◌then◌else◌}
use kruise_agents_nfs_csi.Go.Text.{Str, str_eq, trim_space}
use kruise_agents_nfs_csi.Go.Errors.{Result, ok}
use kruise_agents_nfs_csi.Node.{MountPlan}
use kruise_agents_nfs_csi.Node.NfsPath.{is_nfs_export_root}
use kruise_agents_nfs_csi.Wrapper.RootAuth.{
  ExportRootAuthorizer, hex, load_export_root_authorizer, authorize,
}

-- What loading has checked and built.
load-inv :
    (sha256 : Str → Str) (read_file : Str → Result Str) (c : ℕ) (name contents : Str)
    (a : ExportRootAuthorizer)
    → load_export_root_authorizer sha256 read_file (c ∷ name) ≡ ok a
    → read_file (c ∷ name) ≡ ok contents
    → (a.configured ≡ true)
      × (a.key_hash ≡ sha256 (trim_space contents))
      × (a.fingerprint ≡ hex (sha256 (trim_space contents)))
      × (32 ≤ length (trim_space contents))
      × (length (trim_space contents) ≤ 4096)
unfolding load_export_root_authorizer
load-inv sha256 read_file c name contents a h r = ground arith

-- Where a key file is named and loads, what the file contains, white space around it aside, has 32
-- to 4096 bytes and is accepted as the key for every plan: the export root gets the fingerprint,
-- which is the digest in hexadecimal, and any other plan none.
pub load-authorize :
    (sha256 : Str → Str) (read_file : Str → Result Str) (c : ℕ) (name contents : Str)
    (a : ExportRootAuthorizer) (plan : MountPlan)
    → load_export_root_authorizer sha256 read_file (c ∷ name) ≡ ok a
    → read_file (c ∷ name) ≡ ok contents
    → (authorize sha256 a plan contents
        ≡ ok (if is_nfs_export_root plan then a.fingerprint else []))
      × (a.fingerprint ≡ hex (sha256 (trim_space contents)))
      × (32 ≤ length (trim_space contents))
      × (length (trim_space contents) ≤ 4096)
unfolding authorize
load-authorize sha256 read_file c name contents a plan h r =
    let (configured, hash, fingerprint, low, high) =
      load-inv sha256 read_file c name contents a h r in
    (ground arith, fingerprint, low, high)
