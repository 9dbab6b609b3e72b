-- ===== src/Vfs/Mounts/Examples.antt =====
-- Two nested mounts, and each theorem on mounts at an input.
use mathlib.Core.List.{Memᴰ}
use yunxia.Prelude.{
  trim_space, List, [], ◌∷◌, Bool, true, false, Text, txt, Result, ok, some, ◌≡◌, ◌≢◌, refl, ◌⊎◌,
  All,
}
use yunxia.Vfs.Clean.{clean}
use yunxia.Vfs.Path.{normalize_virtual_path, is_sub_path, below}
use yunxia.Vfs.Mounts.{
  StorageSource, MountEntry, ResolvedPath, best_mount, inner_of, mount_below, real_mount, no_mount,
  finish_resolve, resolve_virtual_path_by_longest_prefix, conflict_in, has_mount_name_conflict,
  exists_in, ensure_writable_name_available,
}
use yunxia.Vfs.Mounts.Resolution.{
  IsRealMount, IsUnmounted, resolve_virtual_path_by_longest_prefix_sound,
}
use yunxia.Vfs.Mounts.Totality.{resolve_virtual_path_by_longest_prefix_total}
use yunxia.Vfs.Mounts.Conflict.{
  AtOrBelow, has_mount_name_conflict_answers, ensure_writable_name_available_sound,
}

program : Unit {0}
unfolding trim_space clean below normalize_virtual_path is_sub_path best_mount inner_of mount_below
    real_mount no_mount finish_resolve resolve_virtual_path_by_longest_prefix conflict_in
    has_mount_name_conflict exists_in ensure_writable_name_available
program = tt

abbrev disk : StorageSource
disk = record {
  id = 1;
  name = txt "disk";
  driver_type = txt "local";
  status = txt "online";
  is_enabled = true;
  is_webdav_exposed = false;
  webdav_read_only = true;
  webdav_slug = txt "disk";
  mount_path = txt "/docs";
  root_path = txt "/";
  sort_order = 0;
  config_json = txt "{}";
}

abbrev mounts : List MountEntry
mounts =
    record { mount_path = txt "/docs"; source = some disk }
    ∷ record { mount_path = txt "/docs/old"; source = some (record disk { id = 2 }) }
    ∷ []

abbrev resolved : ResolvedPath
resolved = record {
  virtual_path = txt "/docs/old/a";
  matched_mount_path = txt "/docs/old";
  inner_path = txt "/a";
  source = some (record disk { id = 2 });
  is_real_mount = true;
  is_pure_virtual = false;
}

resolve_virtual_path_by_longest_prefix_sound_example :
    (normalize_virtual_path (txt "/docs/old/a") ≡ ok (txt "/docs/old/a"))
    × (IsRealMount mounts resolved ⊎ IsUnmounted mounts resolved)
unfolding program
resolve_virtual_path_by_longest_prefix_sound_example =
    resolve_virtual_path_by_longest_prefix_sound (txt "/docs/old/a") mounts refl

resolve_virtual_path_by_longest_prefix_total_example :
    (r : ResolvedPath) × (resolve_virtual_path_by_longest_prefix (txt "/docs/old/a") mounts ≡ ok r)
unfolding program
resolve_virtual_path_by_longest_prefix_total_example =
    resolve_virtual_path_by_longest_prefix_total (txt "/docs/old/a") mounts refl
      ((txt "/docs", refl), ((txt "/docs/old", refl), tt))

has_mount_name_conflict_answers_example :
    (has_mount_name_conflict (txt "/docs") mounts ≡ ok true
      → (txt "/docs" ≢ txt "/") × ((m : MountEntry) × Memᴰ m mounts × AtOrBelow (txt "/docs") m))
    × (has_mount_name_conflict (txt "/docs") mounts ≡ ok false
        → (txt "/docs" ≡ txt "/") ⊎ All (λ m. ¬ AtOrBelow (txt "/docs") m) mounts)
unfolding program
has_mount_name_conflict_answers_example = has_mount_name_conflict_answers (txt "/docs") mounts refl

-- A source that holds nothing.
abbrev empty_source : StorageSource → Text → Result Bool
empty_source s path = ok false

ensure_writable_name_available_sound_example :
    (path : Text) × (r : ResolvedPath) × (normalize_virtual_path (txt "/docs/new") ≡ ok path)
    × ((path ≡ txt "/") ⊎ All (λ m. ¬ AtOrBelow path m) mounts)
    × (resolve_virtual_path_by_longest_prefix (txt "/docs/new") mounts ≡ ok r)
    × ((s : StorageSource)
        → r.source ≡ some s
        → r.is_real_mount ≡ true
        → empty_source s r.inner_path ≡ ok false)
unfolding program
ensure_writable_name_available_sound_example =
    ensure_writable_name_available_sound empty_source (txt "/docs/new") mounts refl
