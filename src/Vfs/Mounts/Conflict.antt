-- ===== src/Vfs/Mounts/Conflict.antt =====
-- When a name is taken by a mount.
use mathlib.Core.List.{Memᴰ}
use yunxia.Prelude.{
  List, [], ◌∷◌, Bool, true, false, ◌||◌, Text, txt, str_eq, str_eq_iff, Result, ok, ok_injective,
  ◌≡◌, ◌≢◌, refl, sym, ◌∙◌, All, inl, inr, ◌⊎◌, Bool-cases, Result-cases, Option, none, some,
}
use yunxia.Vfs.Path.{normalize_virtual_path, normalize_mount_path, is_sub_path}
use yunxia.Vfs.Mounts.Resolution.{resolve_virtual_path_by_longest_prefix_sound}
use yunxia.Vfs.Mounts.{
  MountEntry, StorageSource, ResolvedPath, conflict_in, has_mount_name_conflict,
  ensure_writable_name_available, exists_in, resolve_virtual_path_by_longest_prefix,
}

-- The mount's path normalizes and is the path or under it.
abbrev pub AtOrBelow : Text → MountEntry → Type 0
AtOrBelow path m =
    (mount_path : Text) × (normalize_mount_path m.mount_path ≡ ok mount_path)
    × ((str_eq mount_path path || is_sub_path path mount_path) ≡ true)

conflict_in-found :
    (path : Text) (ms : List MountEntry)
    → conflict_in path ms ≡ ok true
    → (m : MountEntry) × Memᴰ m ms × AtOrBelow path m
unfolding conflict_in
conflict_in-found path [] e = cc
conflict_in-found path (m ∷ ms) e = elim (Result-cases (normalize_mount_path m.mount_path)) [
  | inr (x, bad) ↦ absurd (cc (rw bad at e))
  | inl (p, good) ↦ elim (Bool-cases (str_eq p path || is_sub_path path p)) [
    | inl h ↦ (m, Memᴰ.head refl, (p, good, h))
    | inr h ↦
        let (n, mem, s) = conflict_in-found path ms (rw (good, h) at e) in (n, Memᴰ.tail mem, s)
  ]
]

not_at :
    (path p : Text) (m : MountEntry)
    → normalize_mount_path m.mount_path ≡ ok p
    → (str_eq p path || is_sub_path path p) ≡ false
    → ¬ AtOrBelow path m
not_at path p m good h (q, f, t) =
    let same : q ≡ p = ok_injective (sym f ∙ good) in cc (rw same at t)

conflict_in-none :
    (path : Text) (ms : List MountEntry)
    → conflict_in path ms ≡ ok false
    → All (λ m. ¬ AtOrBelow path m) ms
unfolding conflict_in
conflict_in-none path [] e = tt
conflict_in-none path (m ∷ ms) e = elim (Result-cases (normalize_mount_path m.mount_path)) [
  | inr (x, bad) ↦ absurd (cc (rw bad at e))
  | inl (p, good) ↦ elim (Bool-cases (str_eq p path || is_sub_path path p)) [
    | inl h ↦ absurd (cc (rw (good, h) at e))
    | inr h ↦ (not_at path p m good h, conflict_in-none path ms (rw (good, h) at e))
  ]
]

-- The answers of `has_mount_name_conflict` on a path that normalizes: `true` only if a mount is at
-- or below the path, which is not the root; `false` only for the root, or if no mount is there.
pub has_mount_name_conflict_answers :
    (target : Text) (mounts : List MountEntry) {path : Text}
    → normalize_virtual_path target ≡ ok path
    → (has_mount_name_conflict target mounts ≡ ok true
        → (path ≢ txt "/") × ((m : MountEntry) × Memᴰ m mounts × AtOrBelow path m))
      × (has_mount_name_conflict target mounts ≡ ok false
          → (path ≡ txt "/") ⊎ All (λ m. ¬ AtOrBelow path m) mounts)
unfolding has_mount_name_conflict
has_mount_name_conflict_answers target mounts {path} e = elim (Bool-cases (str_eq path (txt "/"))) [
  | inl root ↦
      ((λ h. absurd (cc (rw (e, root) at h))), λ h. inl ((str_eq_iff path (txt "/")).0 root))
  | inr other ↦ (
    (λ h. ((λ same. cc (rw (same) at other)), conflict_in-found path mounts (rw (e, other) at h))),
    λ h. inr (conflict_in-none path mounts (rw (e, other) at h)),
  )
]

module _ (source_path_exists : StorageSource → Text → Result Bool) where
  exists_in-free :
      (s : Option StorageSource) (real : Bool) (inner : Text) (source : StorageSource)
      → exists_in source_path_exists s real inner ≡ ok tt
      → s ≡ some source
      → real ≡ true
      → source_path_exists source inner ≡ ok false
  unfolding exists_in
  exists_in-free none real inner source h e r = cc
  exists_in-free (some s) false inner source h e r = cc
  exists_in-free (some s) true inner source h e r =
      let same : s ≡ source = cc in
      elim (Result-cases (source_path_exists s inner)) [
        | inr (x, bad) ↦ absurd (cc (rw bad at h))
        | inl (true, there) ↦ absurd (cc (rw there at h))
        | inl (false, free) ↦ rw (← same) free
      ]

  -- A target that may be written normalizes; it is the root or no mount is at or below it; it is
  -- resolved; and in the source that it resolves to nothing exists there.
  pub ensure_writable_name_available_sound :
      (target : Text) (mounts : List MountEntry)
      → ensure_writable_name_available source_path_exists target mounts ≡ ok tt
      → (path : Text) × (r : ResolvedPath) × (normalize_virtual_path target ≡ ok path)
        × ((path ≡ txt "/") ⊎ All (λ m. ¬ AtOrBelow path m) mounts)
        × (resolve_virtual_path_by_longest_prefix target mounts ≡ ok r)
        × ((s : StorageSource)
            → r.source ≡ some s
            → r.is_real_mount ≡ true
            → source_path_exists s r.inner_path ≡ ok false)
  unfolding ensure_writable_name_available
  ensure_writable_name_available_sound target mounts h =
      elim (Result-cases (has_mount_name_conflict target mounts)) [
        | inr (x, bad) ↦ absurd (cc (rw bad at h))
        | inl (true, bad) ↦ absurd (cc (rw bad at h))
        | inl (false, free) ↦
            elim (Result-cases (resolve_virtual_path_by_longest_prefix target mounts)) [
              | inr (x, bad) ↦ absurd (cc (rw (free, bad) at h))
              | inl (r, e) ↦
                  let (n, _) = resolve_virtual_path_by_longest_prefix_sound target mounts e in
                  (
                    r.virtual_path,
                    r,
                    n,
                    (has_mount_name_conflict_answers target mounts n).1 free,
                    e,
                    λ s. exists_in-free r.source r.is_real_mount r.inner_path s (rw (free, e) at h),
                  )
            ]
      ]
