-- ===== src/Shares/Targets.antt =====
-- What a share, and a path under it, stand for (`resolveShareTarget` and `resolveSharePathTarget` of
-- backend/internal/application/service/share_service.go, with what they call).
use yunxia.Prelude.{
  ◌++◌, Bool, true, false, not, ◌&&◌, Text, txt, str_eq, is_empty, has_prefix, trim_prefix,
  trim_space, ◌==◌, ltb, if◌then◌else◌, Option, none, some, Result, ok, err, not_found,
  path_invalid, file_not_found, source_driver_unsupported, ◌>>=◌, ◌>>◌, refuse_if,
}
use yunxia.Vfs.Path.{
  normalize_virtual_path, normalize_mount_path, is_sub_path, merge_mount_and_inner_path, base,
}
use yunxia.Vfs.Mounts.{StorageSource}
use yunxia.Local.{resolve_physical_path}
use yunxia.Shares.{
  ShareLink, SharedNode, NodeReader, Environment, ShareTarget, is_within_share_root,
}

-- `shareInnerPathForSource`
unfoldable pub inner_of_mount : Text → Text → Result Text
inner_of_mount mount path =
    if str_eq mount (txt "/")
    then ok path
    else if is_empty (trim_prefix path mount)
    then ok (txt "/")
    else if has_prefix (trim_prefix path mount) (txt "/")
    then normalize_virtual_path (trim_prefix path mount)
    else normalize_virtual_path (txt "/" ++ trim_prefix path mount)

unfoldable pub share_inner_path_for_source : StorageSource → Text → Result Text
unfolding inner_of_mount
share_inner_path_for_source source virtual_path = do
  path ← normalize_virtual_path virtual_path
  mount ← normalize_mount_path source.mount_path
  refuse_if (not (is_sub_path mount path)) file_not_found
  inner_of_mount mount path

-- `shareTargetSourceByID`
unfoldable pub source_missing : Result StorageSource → Result StorageSource
source_missing (err not_found) = err file_not_found
source_missing r = r

-- `shareTargetFromNode`
unfoldable pub share_target_from_node : Environment → SharedNode → Result ShareTarget
unfolding source_missing share_inner_path_for_source
share_target_from_node e node = elim node.source_id [
  | none ↦ err file_not_found
  | some source_id ↦ do
    refuse_if node.unavailable file_not_found
    source ← source_missing (e.find_source source_id)
    inner_path ← share_inner_path_for_source source node.path
    ok (record {
      node = some node;
      source = source;
      virtual_path = node.path;
      inner_path = inner_path;
      name =
          if is_empty node.name && not (str_eq node.path (txt "/"))
          then base node.path
          else node.name;
      is_dir = node.is_directory;
      node_first = true;
    })
]

-- `inspectTarget`
unfoldable pub stat_target : Environment → StorageSource → Text → Result (Text × Bool)
stat_target e source virtual_path =
    if str_eq source.driver_type (txt "local")
    then (resolve_physical_path e.decode_config source virtual_path >>= λ placed.
        e.stat_local (placed.1))
    else elim (e.file_driver source.driver_type) [
      | none ↦ err source_driver_unsupported
      | some stat ↦ stat source virtual_path
    ]

unfoldable pub inspect_target : Environment → StorageSource → Text → Result (Text × Text × Bool)
unfolding stat_target
inspect_target e source path = do
  virtual_path ← normalize_virtual_path path
  found ← stat_target e source virtual_path
  ok (virtual_path, found.0, found.1)

-- `resolveShareTargetNode`, when there is a reader
unfoldable pub available : Result SharedNode → Result (Option SharedNode)
available (err e) = err file_not_found
available (ok node) = refuse_if node.unavailable file_not_found >> ok (some node)

-- The same, where an error stands for no node.
unfoldable pub available_if_there : Result SharedNode → Result (Option SharedNode)
available_if_there (err e) = ok none
available_if_there (ok node) = refuse_if node.unavailable file_not_found >> ok (some node)

unfoldable pub stated_path : Environment → ShareLink → Result Text
unfolding source_missing
stated_path e share =
    if is_empty (trim_space share.target_virtual_path)
    then (source_missing (e.find_source share.source_id) >>= λ source.
        ok (merge_mount_and_inner_path source.mount_path share.path))
    else ok share.target_virtual_path

unfoldable pub node_by_path : Environment → NodeReader → ShareLink → Result (Option SharedNode)
unfolding stated_path available_if_there
node_by_path e r share = do
  path ← stated_path e share
  refuse_if (is_empty (trim_space path)) path_invalid
  normalized ← normalize_virtual_path path
  r.refresh_target normalized
  available_if_there (r.resolve_node normalized)

unfoldable pub resolve_share_target_node : Environment → ShareLink → Result (Option SharedNode)
unfolding available node_by_path
resolve_share_target_node e share = elim e.reader [
  | none ↦ ok none
  | some r ↦
      if ltb 0 share.target_vfs_node_id
      then available (r.resolve_node_by_id share.target_vfs_node_id)
      else node_by_path e r share
]

abbrev pub or_if_blank : Text → Text → Text
or_if_blank s d = if is_empty (trim_space s) then d else s

-- `resolveLegacyShareTarget`
unfoldable pub resolve_legacy_share_target : Environment → ShareLink → Result ShareTarget
unfolding source_missing inspect_target
resolve_legacy_share_target e share = do
  source ← source_missing (
      e.find_source
        (if share.resolved_source_id == 0 then share.source_id else share.resolved_source_id))
  found ← inspect_target e source (or_if_blank share.resolved_inner_path share.path)
  ok (record {
    node = none;
    source = source;
    virtual_path =
        or_if_blank
          (or_if_blank share.target_virtual_path
            (merge_mount_and_inner_path source.mount_path (found.0)))
          (found.0);
    inner_path = found.0;
    name = found.1;
    is_dir = found.2;
    node_first = false;
  })

unfoldable pub target_of_node : Environment → ShareLink → Option SharedNode → Result ShareTarget
unfolding share_target_from_node resolve_legacy_share_target
target_of_node e share none = resolve_legacy_share_target e share
target_of_node e share (some node) = share_target_from_node e node

-- `resolveShareTarget`
unfoldable pub resolve_share_target : Environment → ShareLink → Result ShareTarget
unfolding resolve_share_target_node target_of_node
resolve_share_target e share = resolve_share_target_node e share >>= target_of_node e share

-- The reader that a target is looked up with, if it is.
unfoldable pub reader_for : Environment → ShareTarget → Option NodeReader
reader_for e root = if root.node_first then e.reader else none

unfoldable pub node_target : Environment → Result SharedNode → Result ShareTarget
unfolding share_target_from_node
node_target e (err x) = err file_not_found
node_target e (ok node) = refuse_if node.unavailable file_not_found >> share_target_from_node e node

unfoldable pub legacy_target : Environment → ShareTarget → Text → Result ShareTarget
unfolding share_inner_path_for_source inspect_target
legacy_target e root normalized = do
  inner_path ← share_inner_path_for_source root.source normalized
  found ← inspect_target e root.source inner_path
  ok (record {
    node = none;
    source = root.source;
    virtual_path = normalized;
    inner_path = found.0;
    name = found.1;
    is_dir = found.2;
    node_first = false;
  })

-- `resolveSharePathTarget`; refreshing the metadata changes nothing that is read here but the answers
-- of the reader.
unfoldable pub target_at : Environment → ShareTarget → Text → Option NodeReader → Result ShareTarget
unfolding node_target legacy_target
target_at e root normalized none = legacy_target e root normalized
target_at e root normalized (some r) = node_target e (r.resolve_node normalized)

unfoldable pub resolve_share_path_target : Environment → ShareTarget → Text → Result ShareTarget
unfolding target_at reader_for is_within_share_root
resolve_share_path_target e root target_virtual_path = do
  normalized ← normalize_virtual_path target_virtual_path
  refuse_if (not (is_within_share_root root.virtual_path normalized)) path_invalid
  target_at e root normalized (reader_for e root)
