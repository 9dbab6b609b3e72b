-- ===== src/Local/Examples.antt =====
-- A path of a local source on the disk.
use yunxia.Prelude.{
  [], ℕ, suc, pos, some, ◌<◌, ◌∷◌, arith, ◌≡◌, List, ◌++◌, Text, txt, true, refl, Result, ok,
}
use yunxia.Vfs.Clean.{absolute, split_slash, clean}
use yunxia.Vfs.Clean.Segments.{segments}
use yunxia.Vfs.Path.{normalize_virtual_path}
use yunxia.Vfs.Mounts.{StorageSource}
use yunxia.Local.{path_join, parse_local_source_config, resolve_physical_path}
use yunxia.Local.Pages.{paginate_items}
use yunxia.Local.Pages.Laws.{all_pages, paginate_items_partitions}
use yunxia.Local.Confined.{resolve_physical_path_confined}

program : Unit {0}
unfolding split_slash clean normalize_virtual_path path_join parse_local_source_config
    resolve_physical_path
program = tt

abbrev source : StorageSource
source = record {
  id = 1;
  name = txt "disk";
  driver_type = txt "local";
  status = txt "online";
  is_enabled = true;
  is_webdav_exposed = true;
  webdav_read_only = true;
  webdav_slug = txt "disk";
  mount_path = txt "/disk";
  root_path = txt "/pub";
  sort_order = 0;
  config_json = txt "/srv";
}

abbrev decode : Text → Result Text
decode json = ok json

decoded : parse_local_source_config decode source ≡ ok (txt "/srv")
unfolding program
decoded = refl

root_normal : normalize_virtual_path source.root_path ≡ ok (txt "/pub")
unfolding program
root_normal = refl

path_normal : normalize_virtual_path (txt "/a//b/") ≡ ok (txt "/a/b")
unfolding program
path_normal = refl

resolved :
    resolve_physical_path decode source (txt "/a//b/") ≡ ok (txt "/srv/pub", txt "/srv/pub/a/b")
unfolding program
resolved = refl

resolve_physical_path_confined_example :
    (bs : List Text) × (clean (txt "/srv") ≡ absolute bs)
    × (resolve_physical_path decode source (txt "/a//b/")
        ≡ ok (
          absolute (bs ++ segments (txt "/pub")),
          absolute ((bs ++ segments (txt "/pub")) ++ segments (txt "/a/b")),
        ))
resolve_physical_path_confined_example =
    resolve_physical_path_confined decode source (txt "/a//b/") decoded refl root_normal path_normal

abbrev numbers : List ℕ
numbers = 7 ∷ 8 ∷ 9 ∷ []

paginate_items_partitions_example :
    (count : ℕ) × ((n : ℕ)
      → n < count
      → (ys : List ℕ) × (paginate_items numbers (pos (suc n)) (pos 2) ≡ some (ys, 3, pos count)))
    × (all_pages numbers 2 count 0 ≡ numbers)
paginate_items_partitions_example = paginate_items_partitions numbers 1 (omega arith)
