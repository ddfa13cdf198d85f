-- ===== src/Wrapper/State/Filename.antt =====
-- internal/wrapper/state.go: the bytes that a state file's name is the digest of.
use kruise_agents_nfs_csi.Prelude.{◌≡◌, ap, List, [], ◌∷◌}
use kruise_agents_nfs_csi.Go.Text.{Str}
use kruise_agents_nfs_csi.Go.Split.{Free, join, split, split-join}
use kruise_agents_nfs_csi.Wrapper.Desired.{MountKey}
use kruise_agents_nfs_csi.Wrapper.State.{key_bytes}

-- No part of the key has a zero byte, as Kubernetes names and checked paths have none.
abbrev pub IsZeroFree : MountKey → Type 0
IsZeroFree k = Free 0 k.pod_uid × Free 0 k.container_name × Free 0 k.target_path

parts : MountKey → List Str
parts k = k.pod_uid ∷ k.container_name ∷ k.target_path ∷ [] ∷ []

split-key_bytes : (k : MountKey) → IsZeroFree k → split (key_bytes k) 0 ≡ parts k
unfolding key_bytes join parts
split-key_bytes k (a, b, c) =
    split-join k.pod_uid (k.container_name ∷ k.target_path ∷ [] ∷ []) 0 (a, (b, (c, (tt, tt))))

-- Two keys without zero bytes have the same file name only if the digest of two different texts is
-- the same: the texts that are digested differ whenever the keys do.
pub key_bytes-injective :
    (k j : MountKey) → IsZeroFree k → IsZeroFree j → key_bytes k ≡ key_bytes j → k ≡ j
unfolding parts
key_bytes-injective k j zk zj h = go (ap (λ s. split s 0) h)
  where
    go : split (key_bytes k) 0 ≡ split (key_bytes j) 0 → k ≡ j
    go e = cc (e, split-key_bytes k zk, split-key_bytes j zj)
