-- ===== src/Wrapper/RootAuth.antt =====
-- internal/wrapper/rootauth.go: the capability key for mounts of the NFS export root. `sha256` and
-- `read_file` stand for crypto/sha256 and os.ReadFile.
pub mod Loaded
use kruise_agents_nfs_csi.Prelude.{
  ℕ, ◌+◌, ◌/◌, ◌%◌, Bool, true, false, not, ◌&&◌, ◌||◌, [], ◌∷◌, ltb, ◌==◌, any, length,
  if◌then◌else◌,
}
use kruise_agents_nfs_csi.Go.Text.{Str, str_eq, trim_space}
use kruise_agents_nfs_csi.Go.Errors.{Result, ok, text, wrap, ◌>>=◌, ◌>>◌, fail_if, map_err}
use kruise_agents_nfs_csi.Node.{MountPlan}
use kruise_agents_nfs_csi.Node.NfsPath.{is_nfs_export_root}

abbrev pub minimum_export_root_key_length : ℕ
minimum_export_root_key_length = 32

abbrev pub maximum_export_root_key_length : ℕ
maximum_export_root_key_length = 4096

-- exportRootAuthorizer
pub record ExportRootAuthorizer : Type 0 where
  pub configured : Bool
  pub key_hash : Str
  pub fingerprint : Str

abbrev pub unconfigured : ExportRootAuthorizer
unconfigured = record { configured = false; key_hash = []; fingerprint = [] }

hex_digit : ℕ → ℕ
hex_digit n = if ltb n 10 then 48 + n else 87 + n

-- hex.EncodeToString
unfoldable pub hex : Str → Str
unfolding hex_digit
hex [] = []
hex (b ∷ s) = hex_digit (b / 16) ∷ hex_digit (b % 16) ∷ hex s

-- The test of the loop over the key's bytes.
unfoldable pub is_invisible : ℕ → Bool
is_invisible c = ltb c 0x21 || ltb 0x7e c

-- loadExportRootAuthorizer
unfoldable pub load_export_root_authorizer :
    (Str → Str) → (Str → Result Str) → Str → Result ExportRootAuthorizer
unfolding any is_invisible
load_export_root_authorizer sha256 read_file [] = ok unconfigured
load_export_root_authorizer sha256 read_file (c ∷ key_file) = do
  contents ← map_err (wrap "read export root key file") (read_file (c ∷ key_file))
  let key = trim_space contents
  fail_if (ltb (length key) minimum_export_root_key_length) (text "export root key is too short")
  fail_if (ltb maximum_export_root_key_length (length key)) (text "export root key is too long")
  fail_if (any is_invisible key) (text "export root key must contain only visible ASCII characters")
  ok (record { configured = true; key_hash = sha256 key; fingerprint = hex (sha256 key) })

-- (exportRootAuthorizer) authorize; ConstantTimeCompare is equality of the digests
unfoldable pub authorize : (Str → Str) → ExportRootAuthorizer → MountPlan → Str → Result Str
authorize sha256 a plan provided_key =
    if not (is_nfs_export_root plan) || not a.configured then ok [] else (do
      fail_if (not (a.key_hash == sha256 (trim_space provided_key)))
          (text "mounting the NFS export root requires a valid export root key")
      ok a.fingerprint)

-- (exportRootAuthorizer) authorizesFingerprint
unfoldable pub authorizes_fingerprint : ExportRootAuthorizer → Str → Bool
authorizes_fingerprint a fingerprint =
    a.configured && not (fingerprint == []) && fingerprint == a.fingerprint
