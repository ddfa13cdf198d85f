-- ===== src/Scenarios/Run.antt =====
-- A whole mount on the concrete kernel.
use kruise_agents_nfs_csi.Prelude.{◌≡◌, refl, [], ◌∷◌, ℕ_discrete, any}
use kruise_agents_nfs_csi.Go.Text.{
  codes, str_dec, has_prefix, drop_prefix, trim_prefix, trim_left, contains_byte, space_1, space_2,
  space_3,
}
use kruise_agents_nfs_csi.Go.Fields.{scan, flush, fields}
use kruise_agents_nfs_csi.Go.Split.{split, join, cons_head}
use kruise_agents_nfs_csi.Go.Clean.{is_abs, clean, clean_parts, resolve, enter, back, render}
use kruise_agents_nfs_csi.Go.Search.{contains, cut_after, replace_all, path_join}
use kruise_agents_nfs_csi.Go.Decimal.{atoi, digits_value, itoa, decimal}
use kruise_agents_nfs_csi.Go.Errors.{ok, is, sentinel_dec}
use kruise_agents_nfs_csi.Node.MountInfo.{
  decode_mount_info_path, is_mount_point, scan_for, names_path, mount_path, fifth, decoded, escaped,
}
use kruise_agents_nfs_csi.Node.Process.{
  find_container_pid, normalize_container_id, pod_needles, container_needles, find_pid, candidate,
  is_numeric, names_container, contains_any, first_bytes,
}
use kruise_agents_nfs_csi.Node.Segments.{source_sub_path_segments, collect_segments}
use kruise_agents_nfs_csi.Node.System.{
  call, call_with, change, referent, drop_fd, close_fd, defer, open_fd,
}
use kruise_agents_nfs_csi.Node.Tree.{
  open_directory_no_follow, walk, enter_segment, open_segment, close_directory_walk_fds,
}
use kruise_agents_nfs_csi.Node.Namespaces.{
  is_mounted_at, refuse_mounted, prepare_target, enter_namespace, restore_namespace, entered,
  open_target, in_mount_namespace, move_mount_into_container_namespace,
}
use kruise_agents_nfs_csi.Node.Staging.{
  mount_nfs, mount_arguments, remote_path, trim_right, remove_path, unless_missing,
  cleanup_staging_path, warn_cleanup_staging_path,
}
use kruise_agents_nfs_csi.Node.Linux.{
  mount, admit, mount_staged, find_pid_of, bind_mount_with_modern_api, open_tree_mount_source,
}
use kruise_agents_nfs_csi.Scenarios.Machine.{kernel, thread, node_cfg, node_plan}

-- The mount takes place: the target is below the root of process 7.
mounted_target :
    ((mount kernel node_cfg node_plan (thread [])).0 ≡ ok tt)
    × ((mount kernel node_cfg node_plan (thread [])).1.disk ≡ codes "/proc/7/root/t" ∷ [])
unfolding ℕ_discrete any codes str_dec has_prefix drop_prefix trim_prefix trim_left contains_byte
    space_1 space_2 space_3 scan flush fields split join cons_head is_abs clean clean_parts resolve
    enter back render contains cut_after replace_all path_join atoi digits_value itoa decimal is
    sentinel_dec decode_mount_info_path is_mount_point scan_for names_path mount_path fifth decoded
    escaped find_container_pid normalize_container_id pod_needles container_needles find_pid
    candidate is_numeric names_container contains_any first_bytes source_sub_path_segments
    collect_segments call call_with change referent drop_fd close_fd defer open_fd
    open_directory_no_follow walk enter_segment open_segment close_directory_walk_fds is_mounted_at
    refuse_mounted prepare_target enter_namespace restore_namespace entered open_target
    in_mount_namespace move_mount_into_container_namespace mount_nfs mount_arguments remote_path
    trim_right remove_path unless_missing cleanup_staging_path warn_cleanup_staging_path mount admit
    mount_staged find_pid_of bind_mount_with_modern_api open_tree_mount_source
mounted_target = (refl, refl)
