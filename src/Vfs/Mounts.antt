-- ===== src/Vfs/Mounts.antt =====
-- Mounts and the resolution of a virtual path to one of them
-- (backend/internal/application/service/vfs_types.go, vfs_path.go, vfs_registry.go, vfs_conflict.go
-- and backend/internal/domain/entity/storage_source.go).
pub mod Inner
pub mod Best
pub mod Rejoin
pub mod Below
pub mod Resolution
pub mod Totality
pub mod Conflict
mod Examples
use yunxia.Prelude.{
  ℕ, List, [], ◌∷◌, ◌++◌, Bool, true, false, not, ◌&&◌, ◌||◌, Text, txt, str_eq, is_empty,
  has_prefix, trim_prefix, ◌==◌, ltb, length, if◌then◌else◌, Option, none, some, Result, ok, err,
  name_conflict, ◌>>=◌, ◌>>◌, refuse_if, ◌≡◌, refl,
}
use yunxia.Vfs.Path.{normalize_virtual_path, normalize_mount_path, is_sub_path}

-- `entity.StorageSource`, its times left out.
pub record StorageSource : Type 0 where
  pub id : ℕ
  pub name : Text
  pub driver_type : Text
  pub status : Text
  pub is_enabled : Bool
  pub is_webdav_exposed : Bool
  pub webdav_read_only : Bool
  pub webdav_slug : Text
  pub mount_path : Text
  pub root_path : Text
  pub sort_order : ℕ
  pub config_json : Text

-- `MountEntry`; the source is a pointer.
pub record MountEntry : Type 0 where
  pub mount_path : Text
  pub source : Option StorageSource

-- `ResolvedPath`
pub record ResolvedPath : Type 0 where
  pub virtual_path : Text
  pub matched_mount_path : Text
  pub inner_path : Text
  pub source : Option StorageSource
  pub is_real_mount : Bool
  pub is_pure_virtual : Bool

-- The first loop of `resolveVirtualPathByLongestPrefix`: the entry with the longest mount path
-- that is above the path, with that mount path.
pub best_mount :
    Text → List MountEntry → Option MountEntry → Text → Result (Option MountEntry × Text)
best_mount path [] best best_path = ok (best, best_path)
best_mount path (m ∷ ms) best best_path = do
  mount_path ← normalize_mount_path m.mount_path
  let longer = is_sub_path mount_path path && ltb (length best_path) (length mount_path)
  best_mount path ms (if longer then some m else best) (if longer then mount_path else best_path)

-- The path inside of the mount.
pub inner_of : Text → Text → Text
inner_of path mount_path =
    let rest = trim_prefix path mount_path in
    if is_empty rest
    then txt "/"
    else if not (has_prefix rest (txt "/"))
    then txt "/" ++ rest
    else rest

-- A loop that returns `true` at a hit.
abbrev rest_unless : Bool → Result Bool → Result Bool
rest_unless found rest = if found then ok true else rest

-- The second loop: is there a mount strictly under the path?
pub mount_below : Text → List MountEntry → Result Bool
mount_below path [] = ok false
mount_below path (m ∷ ms) = do
  mount_path ← normalize_mount_path m.mount_path
  let found = not (str_eq mount_path path) && is_sub_path path mount_path
  rest_unless found (mount_below path ms)

pub real_mount : Text → MountEntry → Text → ResolvedPath
real_mount path m mount_path = record {
  virtual_path = path;
  matched_mount_path = mount_path;
  inner_path = inner_of path mount_path;
  source = m.source;
  is_real_mount = true;
  is_pure_virtual = false;
}

pub no_mount : Text → Bool → ResolvedPath
no_mount path pure = record {
  virtual_path = path;
  matched_mount_path = [];
  inner_path = [];
  source = none;
  is_real_mount = false;
  is_pure_virtual = pure;
}

-- What follows the first loop.
pub finish_resolve : Text → List MountEntry → Option MountEntry × Text → Result ResolvedPath
finish_resolve path mounts (some m, mount_path) = ok (real_mount path m mount_path)
finish_resolve path mounts (none, _) = do pure ← mount_below path mounts; ok (no_mount path pure)

-- `resolveVirtualPathByLongestPrefix`
pub resolve_virtual_path_by_longest_prefix : Text → List MountEntry → Result ResolvedPath
resolve_virtual_path_by_longest_prefix virtual_path mounts = do
  path ← normalize_virtual_path virtual_path
  best ← best_mount path mounts none []
  finish_resolve path mounts best

-- The loop of `hasMountNameConflict`.
pub conflict_in : Text → List MountEntry → Result Bool
conflict_in path [] = ok false
conflict_in path (m ∷ ms) = do
  mount_path ← normalize_mount_path m.mount_path
  rest_unless (str_eq mount_path path || is_sub_path path mount_path) (conflict_in path ms)

-- `hasMountNameConflict`
pub has_mount_name_conflict : Text → List MountEntry → Result Bool
has_mount_name_conflict target mounts = do
  path ← normalize_virtual_path target
  if str_eq path (txt "/") then ok false else conflict_in path mounts

-- `sourcePathExists`
module _ (source_path_exists : StorageSource → Text → Result Bool) where
  pub exists_in : Option StorageSource → Bool → Text → Result (Unit {0})
  exists_in none real inner = ok tt
  exists_in (some s) false inner = ok tt
  exists_in (some s) true inner = do
    exists ← source_path_exists s inner
    refuse_if exists name_conflict

  -- `ensureWritableNameAvailable`
  pub ensure_writable_name_available : Text → List MountEntry → Result (Unit {0})
  unfolding exists_in
  ensure_writable_name_available target mounts = do
    conflict ← has_mount_name_conflict target mounts
    refuse_if conflict name_conflict
    resolved ← resolve_virtual_path_by_longest_prefix target mounts
    exists_in resolved.source resolved.is_real_mount resolved.inner_path
