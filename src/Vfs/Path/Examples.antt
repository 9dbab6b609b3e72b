-- ===== src/Vfs/Path/Examples.antt =====
-- Paths at work, and each theorem on paths at an input.
use yunxia.Prelude.{trim_space, txt, ok, err, path_invalid, ◌≡◌, ◌↔◌, refl, true, false, ◌++◌}
use yunxia.Vfs.Clean.{absolute, clean}
use yunxia.Vfs.Path.{
  normalize_virtual_path, split_parent_name, merge_mount_and_inner_path, is_sub_path, below, dir,
  base,
}
use yunxia.Vfs.Clean.Segments.{segments}
use yunxia.Vfs.Path.Normal.{IsNormal, normalize_virtual_path-IsNormal}
use yunxia.Vfs.Path.Ancestry.{Leads, is_sub_path_iff}
use yunxia.Vfs.Path.Parents.{IsSplit, split_parent_name-IsSplit}
use yunxia.Vfs.Path.Merging.{merge_mount_and_inner_path-segments}

program : Unit {0}
unfolding trim_space normalize_virtual_path clean below is_sub_path split_parent_name dir base
program = tt

hidden_dots_refused : normalize_virtual_path (txt "/a..b") ≡ err path_invalid
unfolding program
hidden_dots_refused = refl

dots_resolved : normalize_virtual_path (txt "/a/../b") ≡ ok (txt "/b")
unfolding program
dots_resolved = refl

sibling_apart : is_sub_path (txt "/a") (txt "/ab") ≡ false
unfolding program
sibling_apart = refl

normalize_virtual_path-IsNormal_example : IsNormal (txt "/docs/b")
unfolding program
normalize_virtual_path-IsNormal_example = normalize_virtual_path-IsNormal (txt "/docs//./b/") refl

is_sub_path_iff_example :
    (is_sub_path (txt "/docs") (txt "/docs/b") ≡ true)
    ↔ Leads (segments (txt "/docs")) (segments (txt "/docs/b"))
unfolding program
is_sub_path_iff_example = is_sub_path_iff (txt "/docs") (txt "/docs/b") refl refl

split_parent_name-IsSplit_example :
    (q : _) × (normalize_virtual_path (txt "/docs/b/") ≡ ok q) × IsSplit q (txt "/docs") (txt "b")
unfolding program
split_parent_name-IsSplit_example = split_parent_name-IsSplit (txt "/docs/b/") refl

merge_mount_and_inner_path-segments_example :
    (merge_mount_and_inner_path (txt "/docs") (txt "/a/b")
      ≡ absolute (segments (txt "/docs") ++ segments (txt "/a/b")))
    × (segments (merge_mount_and_inner_path (txt "/docs") (txt "/a/b"))
        ≡ segments (txt "/docs") ++ segments (txt "/a/b"))
unfolding program
merge_mount_and_inner_path-segments_example =
    merge_mount_and_inner_path-segments (txt "/docs") (txt "/a/b") refl refl
