-- ===== src/Vfs/Registry/Examples.antt =====
-- A registry of two sources, and each theorem on it at an input.
use mathlib.Core.List.{Memᴰ}
use yunxia.Prelude.{trim_space, List, [], ◌∷◌, true, false, txt, ok, some, ◌≡◌, refl, ◌⊎◌, All}
use yunxia.Vfs.Clean.{clean}
use yunxia.Vfs.Path.{normalize_virtual_path, is_sub_path, below}
use yunxia.Vfs.Mounts.{
  StorageSource, MountEntry, ResolvedPath, resolve_virtual_path_by_longest_prefix,
}
use yunxia.Vfs.Registry.{
  mount_path_of, build_mount_entries, is_source, conflicts, has_mount_path_conflict, child_name,
  projected, put_child, project_all, text_lt, insert_by_name, sort_by_name,
  project_virtual_dirs_from_mounts, project_virtual_children, project_virtual_dirs,
}
use yunxia.Vfs.Registry.Entries.{
  FromSources, Clashes, build_mount_entries_resolves, has_mount_path_conflict_answers,
}

program : Unit {0}
unfolding trim_space clean below normalize_virtual_path is_sub_path mount_path_of
    build_mount_entries is_source conflicts has_mount_path_conflict child_name projected put_child
    project_all text_lt insert_by_name sort_by_name project_virtual_dirs_from_mounts
    project_virtual_dirs project_virtual_children
program = tt

abbrev disk : StorageSource
disk = record {
  id = 1;
  name = txt "disk";
  driver_type = txt "local";
  status = txt "online";
  is_enabled = true;
  is_webdav_exposed = false;
  webdav_read_only = true;
  webdav_slug = txt "disk";
  mount_path = txt "/team/docs";
  root_path = txt "/";
  sort_order = 0;
  config_json = txt "{}";
}

abbrev sources : List StorageSource
sources = disk ∷ record disk { id = 2; mount_path = txt "/team/art/" } ∷ []

abbrev entries : List MountEntry
entries =
    record { mount_path = txt "/team/docs"; source = some disk }
    ∷ record {
      mount_path = txt "/team/art";
      source = some (record disk { id = 2; mount_path = txt "/team/art/" });
    }
    ∷ []

-- The children are in the order of their names.
projected_children :
    project_virtual_children (ok sources) (txt "/team") ≡ ok (txt "art" ∷ txt "docs" ∷ [])
unfolding program
projected_children = refl

build_mount_entries_resolves_example :
    All (FromSources sources) entries
    × ((r : ResolvedPath) × (resolve_virtual_path_by_longest_prefix (txt "/team/art/a") entries
          ≡ ok r))
unfolding program
build_mount_entries_resolves_example =
    build_mount_entries_resolves sources (txt "/team/art/a") refl refl

has_mount_path_conflict_answers_example :
    ((has_mount_path_conflict (ok sources) (txt "/team/art") 1 ≡ ok true)
      × ((m : MountEntry) × Memᴰ m entries × Clashes (txt "/team/art") 1 m))
    ⊎ (has_mount_path_conflict (ok sources) (txt "/team/art") 1 ≡ ok false)
      × All (λ m. ¬ Clashes (txt "/team/art") 1 m) entries
unfolding program
has_mount_path_conflict_answers_example =
    has_mount_path_conflict_answers sources (txt "/team/art") 1 refl refl
