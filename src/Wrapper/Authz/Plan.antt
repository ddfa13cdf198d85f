-- ===== src/Wrapper/Authz/Plan.antt =====
-- buildMountPlan of internal/wrapper/authz.go.
use kruise_agents_nfs_csi.Prelude.{◌||◌, List, [], ◌∷◌, none, some, ◌==◌, if◌then◌else◌}
use kruise_agents_nfs_csi.Go.Text.{Str, codes, str_eq}
use kruise_agents_nfs_csi.Go.Maps.{lookup}
use kruise_agents_nfs_csi.Go.Errors.{Result, ok, text, wrap, ◌>>=◌, ◌>>◌, fail_if, map_err}
use kruise_agents_nfs_csi.Api.{MountRequest}
use kruise_agents_nfs_csi.Kube.{Pod, PersistentVolume, CsiPersistentVolumeSource}
use kruise_agents_nfs_csi.Node.{MountPlan}
use kruise_agents_nfs_csi.Node.NfsPath.{normalize_nfs_sub_dir}

-- firstNonEmpty
unfoldable pub first_non_empty : List Str → Str
first_non_empty [] = []
first_non_empty (value ∷ values) =
    let rest = first_non_empty values in if value == [] then rest else value

-- attrs[key]: a missing key reads as the empty string
abbrev pub attribute : List (Str × Str) → Str → Str
attribute attrs key = elim (lookup key attrs) [ none ↦ [] | some value ↦ value ]

unfoldable pub server_of : List (Str × Str) → Str
unfolding first_non_empty codes
server_of attrs =
    first_non_empty
      (attribute attrs (codes "server") ∷ attribute attrs (codes "mountOptions.server") ∷ [])

unfoldable pub share_of : List (Str × Str) → Str
unfolding first_non_empty codes
share_of attrs =
    first_non_empty
      (attribute attrs (codes "share") ∷ attribute attrs (codes "mountOptions.share") ∷ [])

unfoldable pub sub_dir_of : List (Str × Str) → Str
unfolding first_non_empty codes
sub_dir_of attrs =
    first_non_empty (attribute attrs (codes "subDir") ∷ attribute attrs (codes "subdir") ∷ [])

-- buildMountPlan; `csi` is the source that authorizePVForPod has found
unfoldable pub build_mount_plan :
    MountRequest → Pod → PersistentVolume → CsiPersistentVolumeSource → Str → Result MountPlan
build_mount_plan request pod pv csi container_id = do
  let server = server_of csi.volume_attributes
  let share = share_of csi.volume_attributes
  sub_dir ←
      map_err (wrap "pv has invalid nfs subDir")
        (normalize_nfs_sub_dir (sub_dir_of csi.volume_attributes))
  fail_if (server == [] || share == []) (text "pv is missing nfs server/share volume attributes")
  ok (record {
    pv = record {
      name = pv.metadata.name;
      volume_handle = csi.volume_handle;
      server = server;
      share = share;
      sub_dir = sub_dir;
      mount_options = pv.spec.mount_options;
    };
    pod_uid = pod.metadata.uid;
    container_name = request.container_name;
    container_id = container_id;
    source_sub_path = request.source_sub_path;
    target_path = request.target_path;
  })
