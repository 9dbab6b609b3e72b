-- ===== src/Vfs/Registry.antt =====
-- The mount registry (backend/internal/application/service/vfs_registry.go): mount entries from
-- sources, the check of a new mount path, and the virtual directories that the mounts project.
pub mod Entries
mod Examples
use yunxia.Prelude.{
  ℕ, List, [], ◌∷◌, ◌++◌, Bool, true, false, not, ◌&&◌, ◌||◌, Text, txt, str_eq, is_empty,
  trim_prefix, ltb, ◌==◌, if◌then◌else◌, Option, none, some, Result, ok, err, ◌>>=◌, map,
}
use yunxia.Vfs.Clean.{split_slash}
use yunxia.Vfs.Path.{normalize_virtual_path, normalize_mount_path, is_sub_path, join_virtual_path}
use yunxia.Vfs.Mounts.{StorageSource, MountEntry}

-- The configured mount path of a source, or the one that its WebDAV slug stands for.
pub mount_path_of : StorageSource → Text
mount_path_of s =
    if is_empty s.mount_path && not (is_empty s.webdav_slug)
    then txt "/" ++ s.webdav_slug
    else s.mount_path

-- `buildMountEntries`; a source without a mount path is left out.
pub build_mount_entries : List StorageSource → Result (List MountEntry)
build_mount_entries [] = ok []
build_mount_entries (s ∷ ss) =
    let rest = build_mount_entries ss in
    if is_empty (mount_path_of s) then rest else do
      path ← normalize_mount_path (mount_path_of s)
      items ← rest
      ok (record { mount_path = path; source = some s } ∷ items)

pub is_source : ℕ → Option StorageSource → Bool
is_source id none = false
is_source id (some s) = s.id == id

pub conflicts : Text → ℕ → List MountEntry → Bool
conflicts path exclude_id [] = false
conflicts path exclude_id (m ∷ ms) =
    let rest = conflicts path exclude_id ms in
    if is_source exclude_id m.source then rest else if str_eq m.mount_path path then true else rest

-- `HasMountPathConflict`; the first argument is what the repository's `ListAll` returns.
pub has_mount_path_conflict : Result (List StorageSource) → Text → ℕ → Result Bool
has_mount_path_conflict list_all mount_path exclude_id = do
  path ← normalize_mount_path mount_path
  sources ← list_all
  mounts ← build_mount_entries sources
  ok (conflicts path exclude_id mounts)

-- `ProjectedVirtualDir`
pub record ProjectedVirtualDir : Type 0 where
  pub name : Text
  pub path : Text
  pub is_mount_point : Bool

abbrev first_part : List Text → Text
first_part [] = []
first_part (p ∷ ps) = p

-- The name of the directory directly under the prefix on the way to the mount; empty if the mount
-- is not strictly under the prefix.
pub child_name : Text → Text → Text
child_name prefix mount_path =
    if str_eq mount_path prefix
    then []
    else if not (is_sub_path prefix mount_path)
    then []
    else first_part (split_slash (trim_prefix (trim_prefix mount_path prefix) (txt "/")))

pub projected : Text → Text → Text → ProjectedVirtualDir
projected prefix mount_path name = record {
  name = name;
  path = join_virtual_path prefix name;
  is_mount_point = str_eq (join_virtual_path prefix name) mount_path;
}

-- The write to the map: a mount point that is there already stays.
pub put_child : ProjectedVirtualDir → List ProjectedVirtualDir → List ProjectedVirtualDir
put_child d [] = d ∷ []
put_child d (e ∷ es) =
    let rest = e ∷ put_child d es in
    if str_eq e.name d.name then (if e.is_mount_point then e ∷ es else d ∷ es) else rest

pub project_all : Text → List MountEntry → List ProjectedVirtualDir → List ProjectedVirtualDir
project_all prefix [] children = children
project_all prefix (m ∷ ms) children =
    let name = child_name prefix m.mount_path in
    project_all prefix ms
      (if is_empty name then children else put_child (projected prefix m.mount_path name) children)

-- The order of Go strings.
pub text_lt : Text → Text → Bool
text_lt [] [] = false
text_lt [] (d ∷ t) = true
text_lt (c ∷ s) [] = false
text_lt (c ∷ s) (d ∷ t) = ltb c d || (c == d && text_lt s t)

pub insert_by_name : ProjectedVirtualDir → List ProjectedVirtualDir → List ProjectedVirtualDir
insert_by_name d [] = d ∷ []
insert_by_name d (e ∷ es) =
    let rest = e ∷ insert_by_name d es in if text_lt d.name e.name then d ∷ e ∷ es else rest

-- `sort.Slice` by name; the names differ, so every sort gives this list.
pub sort_by_name : List ProjectedVirtualDir → List ProjectedVirtualDir
sort_by_name [] = []
sort_by_name (d ∷ ds) = insert_by_name d (sort_by_name ds)

-- `projectVirtualDirsFromMounts`
pub project_virtual_dirs_from_mounts : Text → List MountEntry → Result (List ProjectedVirtualDir)
unfolding child_name projected put_child project_all text_lt insert_by_name sort_by_name
project_virtual_dirs_from_mounts prefix mounts = do
  path ← normalize_virtual_path prefix
  ok (sort_by_name (project_all path mounts []))

-- `ListEnabledMounts` and `ProjectVirtualDirs`, from what the repository's `ListEnabled` returns.
pub project_virtual_dirs : Result (List StorageSource) → Text → Result (List ProjectedVirtualDir)
project_virtual_dirs list_enabled prefix = do
  sources ← list_enabled
  mounts ← build_mount_entries sources
  project_virtual_dirs_from_mounts prefix mounts

-- `ProjectVirtualChildren`
pub project_virtual_children : Result (List StorageSource) → Text → Result (List Text)
project_virtual_children list_enabled prefix = do
  dirs ← project_virtual_dirs list_enabled prefix
  ok (map (λ (d : ProjectedVirtualDir). d.name) dirs)
