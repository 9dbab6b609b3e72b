-- ===== src/Vfs/Path.antt =====
-- Virtual paths (backend/internal/application/service/vfs_path.go, with `normalizeVirtualPath` and
-- `validateFileName` of local_storage_helpers.go).
pub mod Normal
pub mod Ancestry
pub mod Names
pub mod Parents
pub mod Merging
mod Examples
use yunxia.Prelude.{
  List, [], ◌∷◌, ◌++◌, reverse, Bool, true, false, not, ◌&&◌, ◌||◌, Text, txt, str_eq, is_empty,
  has_prefix, trim_prefix, contains, ◌==◌, if◌then◌else◌, ◌≡◌, refl, Result, ok, err, Error,
  path_invalid, file_name_invalid, ◌>>=◌, ◌>>◌, refuse_if, ok_or,
}
use yunxia.Vfs.Clean.{slash, split_slash, clean}

abbrev rooted : Text → Text
rooted cleaned = if has_prefix cleaned (txt "/") then cleaned else txt "/" ++ cleaned

-- What follows the emptiness check of `normalizeVirtualPath`.
normalize_nonempty : Text → Result Text
normalize_nonempty input =
    if not (has_prefix input (txt "/"))
    then err path_invalid
    else if contains (rooted (clean input)) (txt "..")
    then err path_invalid
    else ok (rooted (clean input))

-- `normalizeVirtualPath`
unfoldable pub normalize_virtual_path : Text → Result Text
unfolding normalize_nonempty
normalize_virtual_path input = normalize_nonempty (if is_empty input then txt "/" else input)

-- `normalizeMountPath`
abbrev pub normalize_mount_path : Text → Result Text
normalize_mount_path input = normalize_virtual_path input

-- `validateFileName`
unfoldable pub validate_file_name : Text → Result (Unit {0})
validate_file_name name =
    refuse_if
      (is_empty name
        || contains name (txt "/")
        || contains name (b'\\' ∷ [])
        || str_eq name (txt ".")
        || str_eq name (txt ".."))
      file_name_invalid

-- What stands up to the last slash, the slash included.
dir_part : Text → Text
dir_part [] = []
dir_part (c ∷ s) = let d = dir_part s in if c == slash || not (is_empty d) then c ∷ d else []

abbrev last_of : List Text → Text
last_of [] = []
last_of (p ∷ []) = p
last_of (p ∷ q ∷ ps) = last_of (q ∷ ps)

-- What stands behind the last slash.
last_part : Text → Text
last_part s = last_of (split_slash s)

abbrev drop_slashes : Text → Text
drop_slashes [] = []
drop_slashes (c ∷ s) = let rest = drop_slashes s in if c == slash then rest else c ∷ s

-- `path.Dir`
unfoldable pub dir : Text → Text
unfolding dir_part clean
dir s = clean (dir_part s)

abbrev or_slash : Text → Text
or_slash [] = txt "/"
or_slash (c ∷ s) = c ∷ s

-- `path.Base`
unfoldable pub base : Text → Text
unfolding last_part
base [] = txt "."
base (c ∷ s) = or_slash (last_part (reverse (drop_slashes (reverse (c ∷ s)))))

-- `splitParentName`
unfoldable pub split_parent_name : Text → Result (Text × Text)
split_parent_name input = do
  normalized ← normalize_virtual_path input
  if str_eq normalized (txt "/") then ok (txt "/", []) else ok (dir normalized, base normalized)

-- `joinVirtualPath`
unfoldable pub join_virtual_path : Text → Text → Text
join_virtual_path parent name =
    if str_eq parent (txt "/")
    then txt "/" ++ trim_prefix name (txt "/")
    else parent ++ txt "/" ++ trim_prefix name (txt "/")

-- `mergeMountAndInnerPath`; the empty text where a path is invalid.
unfoldable pub merge_mount_and_inner_path : Text → Text → Text
merge_mount_and_inner_path mount inner = ok_or [] do
  m ← normalize_mount_path mount
  i ← normalize_virtual_path inner
  ok (if str_eq i (txt "/") then m else if str_eq m (txt "/") then i else m ++ i)

-- The test of `isSubPath` on normalized paths.
unfoldable pub below : Text → Text → Bool
below base_path target =
    if str_eq base_path (txt "/")
    then has_prefix target (txt "/")
    else str_eq target base_path || has_prefix target (base_path ++ txt "/")

-- `isSubPath`: the target is the base, or lies under it.
unfoldable pub is_sub_path : Text → Text → Bool
is_sub_path base_path target =
    ok_or false
      do b ← normalize_virtual_path base_path; t ← normalize_virtual_path target; ok (below b t)
