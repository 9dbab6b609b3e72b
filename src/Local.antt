-- ===== src/Local.antt =====
-- Where the paths of a local source lie on the server's disk
-- (backend/internal/application/service/local_storage_helpers.go). The decoding of a source's JSON
-- configuration is a parameter.
use yunxia.Prelude.{
  ◌++◌, Text, txt, is_empty, has_prefix, trim_prefix, not, if◌then◌else◌, Result, ok, err,
  path_invalid, ◌>>=◌, ◌>>◌, refuse_if,
}
use yunxia.Vfs.Clean.{clean}
use yunxia.Vfs.Path.{normalize_virtual_path}
use yunxia.Vfs.Mounts.{StorageSource}
pub mod Confined
pub mod Pages
mod Examples

-- `filepath.Join` and `path.Join` of two elements; empty ones at the front are left out.
unfoldable pub path_join : Text → Text → Text
path_join a b =
    if is_empty a then (if is_empty b then b else clean b) else clean (a ++ txt "/" ++ b)

-- `parseLocalSourceConfig`; the parameter gives the base path that the configuration names.
unfoldable pub parse_local_source_config : (Text → Result Text) → StorageSource → Result Text
parse_local_source_config decode source = do
  base_path ← decode source.config_json
  refuse_if (is_empty base_path) path_invalid
  ok base_path

abbrev pub base_root_of : Text → Text → Text
base_root_of base_path root = path_join (clean base_path) (trim_prefix root (txt "/"))

abbrev pub target_of : Text → Text → Text
target_of base_root path = path_join base_root (trim_prefix path (txt "/"))

-- `resolvePhysicalPath`: the root of the source on the disk, and the target.
unfoldable pub resolve_physical_path :
    (Text → Result Text) → StorageSource → Text → Result (Text × Text)
unfolding path_join
resolve_physical_path decode source virtual_path = do
  base_path ← parse_local_source_config decode source
  root ← normalize_virtual_path source.root_path
  path ← normalize_virtual_path virtual_path
  let base_root = base_root_of base_path root
  let target = target_of base_root path
  refuse_if (not (has_prefix (clean target) (clean base_root))) path_invalid
  ok (clean base_root, clean target)
