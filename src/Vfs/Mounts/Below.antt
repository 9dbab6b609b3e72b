-- ===== src/Vfs/Mounts/Below.antt =====
-- The loop that looks for a mount strictly below a path.
use mathlib.Core.List.{Memᴰ}
use yunxia.Prelude.{
  List, [], ◌∷◌, Bool, true, false, not, ◌&&◌, Text, str_eq, str_eq_iff, ok, ok_injective, ◌≡◌, ◌≢◌,
  refl, sym, ◌∙◌, arith, All, inl, inr, Bool-cases, Result-cases,
}
use yunxia.Vfs.Path.{normalize_mount_path, is_sub_path}
use yunxia.Vfs.Mounts.{MountEntry, mount_below}

-- The mount's path normalizes, is another path, and is under the path.
abbrev pub StrictlyBelow : Text → MountEntry → Type 0
StrictlyBelow path m =
    (mount_path : Text) × (normalize_mount_path m.mount_path ≡ ok mount_path)
    × (mount_path ≢ path)
    × (is_sub_path path mount_path ≡ true)

abbrev hit : Text → Text → Bool
hit path mount_path = not (str_eq mount_path path) && is_sub_path path mount_path

StrictlyBelow-of_hit :
    (path : Text) (m : MountEntry) (mount_path : Text)
    → normalize_mount_path m.mount_path ≡ ok mount_path
    → hit path mount_path ≡ true
    → StrictlyBelow path m
StrictlyBelow-of_hit path m mount_path e h =
    (mount_path, e, (ground (arith, str_eq_iff mount_path path)), ground arith)

not_StrictlyBelow :
    (path : Text) (m : MountEntry) (mount_path : Text)
    → normalize_mount_path m.mount_path ≡ ok mount_path
    → hit path mount_path ≡ false
    → ¬ StrictlyBelow path m
not_StrictlyBelow path m mount_path e h (p, f, n, s) =
    let same : p ≡ mount_path = ok_injective (sym f ∙ e) in
    ground (arith, str_eq_iff mount_path path)

pub mount_below-found :
    (path : Text) (ms : List MountEntry)
    → mount_below path ms ≡ ok true
    → (m : MountEntry) × Memᴰ m ms × StrictlyBelow path m
unfolding mount_below
mount_below-found path [] e = cc
mount_below-found path (m ∷ ms) e = elim (Result-cases (normalize_mount_path m.mount_path)) [
  | inr (x, bad) ↦ absurd (cc (rw bad at e))
  | inl (mount_path, good) ↦ elim (Bool-cases (hit path mount_path)) [
    | inl h ↦ (m, Memᴰ.head refl, StrictlyBelow-of_hit path m mount_path good h)
    | inr h ↦
        let (n, mem, s) = mount_below-found path ms (rw (good, h) at e) in (n, Memᴰ.tail mem, s)
  ]
]

pub mount_below-none :
    (path : Text) (ms : List MountEntry)
    → mount_below path ms ≡ ok false
    → All (λ m. ¬ StrictlyBelow path m) ms
unfolding mount_below
mount_below-none path [] e = tt
mount_below-none path (m ∷ ms) e = elim (Result-cases (normalize_mount_path m.mount_path)) [
  | inr (x, bad) ↦ absurd (cc (rw bad at e))
  | inl (mount_path, good) ↦ elim (Bool-cases (hit path mount_path)) [
    | inl h ↦ absurd (cc (rw (good, h) at e))
    | inr h ↦
        (not_StrictlyBelow path m mount_path good h, mount_below-none path ms (rw (good, h) at e))
  ]
]
