-- ===== src/Vfs/Mounts/Totality.antt =====
-- Resolution fails only where a path does not normalize.
use yunxia.Prelude.{
  List, [], ◌∷◌, Text, Option, none, some, Bool, ok, ◌≡◌, refl, All, Bool-cases, inl, inr, not,
  ◌&&◌, str_eq, ltb, length, true, false, if◌then◌else◌,
}
use yunxia.Vfs.Path.{normalize_virtual_path, normalize_mount_path, is_sub_path}
use yunxia.Vfs.Mounts.{
  MountEntry, ResolvedPath, best_mount, mount_below, real_mount, no_mount, finish_resolve,
  resolve_virtual_path_by_longest_prefix,
}

-- Every mount's path normalizes.
abbrev pub AllNormalize : List MountEntry → Type 0
AllNormalize = All λ m. (p : Text) × (normalize_mount_path m.mount_path ≡ ok p)

best_mount_total :
    (path : Text) (ms : List MountEntry) (best : Option MountEntry) (best_path : Text)
    → AllNormalize ms
    → (found : Option MountEntry × Text) × (best_mount path ms best best_path ≡ ok found)
unfolding best_mount
best_mount_total path [] best best_path h = ((best, best_path), refl)
best_mount_total path (m ∷ ms) best best_path ((p, e), h) =
    let longer = is_sub_path p path && ltb (length best_path) (length p) in
    let (found, f) =
      best_mount_total path ms (if longer then some m else best) (if longer then p else best_path)
        h in
    (found, rw e f)

mount_below_total :
    (path : Text) (ms : List MountEntry)
    → AllNormalize ms
    → (b : Bool) × (mount_below path ms ≡ ok b)
unfolding mount_below
mount_below_total path [] h = (false, refl)
mount_below_total path (m ∷ ms) ((p, e), h) =
    let (b, f) = mount_below_total path ms h in
    elim (Bool-cases (not (str_eq p path) && is_sub_path path p)) [
      | inl t ↦ (true, rw (e, t))
      | inr t ↦ (b, rw (e, t) f)
    ]

finish_resolve_total :
    (path : Text) (ms : List MountEntry) (found : Option MountEntry × Text)
    → AllNormalize ms
    → (r : ResolvedPath) × (finish_resolve path ms found ≡ ok r)
unfolding finish_resolve
finish_resolve_total path ms (some m, p) h = (real_mount path m p, refl)
finish_resolve_total path ms (none, p) h =
    let (b, f) = mount_below_total path ms h in (no_mount path b, rw f)

-- If the path and every mount's path normalize, the path is resolved.
pub resolve_virtual_path_by_longest_prefix_total :
    (p : Text) (mounts : List MountEntry) {path : Text}
    → normalize_virtual_path p ≡ ok path
    → AllNormalize mounts
    → (r : ResolvedPath) × (resolve_virtual_path_by_longest_prefix p mounts ≡ ok r)
unfolding resolve_virtual_path_by_longest_prefix
resolve_virtual_path_by_longest_prefix_total p mounts {path} e h =
    let (found, f) = best_mount_total path mounts none [] h in
    let (r, g) = finish_resolve_total path mounts found h in (r, rw (e, f) g)
