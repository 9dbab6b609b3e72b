-- ===== src/Vfs/Mounts/Best.antt =====
-- The loop that looks for the longest mount above a path.
use mathlib.Core.List.{Memᴰ}
use yunxia.Prelude.{
  ℕ, List, [], ◌∷◌, Bool, true, false, ◌&&◌, Text, ltb, length, Option, some, ok, ok_injective, ◌≡◌,
  refl, sym, ap, ◌∙◌, ◌≤◌, arith, All, ◌⊎◌, inl, inr, Bool-cases, Result-cases,
}
use yunxia.Vfs.Path.{normalize_mount_path, is_sub_path}
use yunxia.Vfs.Mounts.{MountEntry, best_mount}

-- The mount's path normalizes to `mount_path`, and the path is there or below.
abbrev pub Above : Text → MountEntry → Text → Type 0
Above path m mount_path =
    (normalize_mount_path m.mount_path ≡ ok mount_path) × (is_sub_path mount_path path ≡ true)

-- No mount above the path has a path longer than n.
abbrev pub NoneLonger : Text → ℕ → List MountEntry → Type 0
NoneLonger path n = All λ m. (mount_path : Text) → Above path m mount_path → length mount_path ≤ n

-- What the loop returns, begun with `best` and `best_path`.
pub record IsBest (path : Text) (ms : List MountEntry) (best : Option MountEntry) (best_path : Text)
    (found : Option MountEntry) (found_path : Text) : Type 0 where
  pub grown : length best_path ≤ length found_path
  pub longest : NoneLonger path (length found_path) ms
  pub origin :
      ((found ≡ best) × (found_path ≡ best_path))
      ⊎ ((m : MountEntry) × Memᴰ m ms × (found ≡ some m) × Above path m found_path)

NoneLonger-mono :
    (path : Text) {a b : ℕ} (ms : List MountEntry)
    → a ≤ b
    → NoneLonger path a ms
    → NoneLonger path b ms
NoneLonger-mono path [] h n = tt
NoneLonger-mono path (m ∷ ms) h (k, n) = (λ p a. omega (arith, k p a), NoneLonger-mono path ms h n)

abbrev longer : Text → Text → Text → Bool
longer path best_path mount_path =
    is_sub_path mount_path path && ltb (length best_path) (length mount_path)

-- The entry becomes the best one, or stays out, as the test says.
IsBest-taken :
    (path : Text) (m : MountEntry) (ms : List MountEntry) (best : Option MountEntry)
    (best_path mount_path : Text) {found : Option MountEntry} {found_path : Text}
    → normalize_mount_path m.mount_path ≡ ok mount_path
    → longer path best_path mount_path ≡ true
    → IsBest path ms (some m) mount_path found found_path
    → IsBest path (m ∷ ms) best best_path found found_path
IsBest-taken path m ms best best_path mount_path {found} {found_path} e l b = record {
  grown = ground (arith, b.grown);
  longest =
      (λ p a. let same : p ≡ mount_path = ok_injective (sym a.0 ∙ e) in rw same b.grown, b.longest);
  origin = inr (elim b.origin [
    | inl (f, g) ↦
        let above : Above path m found_path = (e ∙ ap ok (sym g), rw g (ground arith)) in
        (m, Memᴰ.head refl, f, above)
    | inr (n, mem, f, a) ↦ (n, Memᴰ.tail mem, f, a)
  ]);
}

IsBest-left :
    (path : Text) (m : MountEntry) (ms : List MountEntry) (best : Option MountEntry)
    (best_path mount_path : Text) {found : Option MountEntry} {found_path : Text}
    → normalize_mount_path m.mount_path ≡ ok mount_path
    → longer path best_path mount_path ≡ false
    → IsBest path ms best best_path found found_path
    → IsBest path (m ∷ ms) best best_path found found_path
IsBest-left path m ms best best_path mount_path {found} {found_path} e l b = record {
  grown = b.grown;
  longest = (
    λ p a.
        let same : p ≡ mount_path = ok_injective (sym a.0 ∙ e) in rw same (short (rw same at a.1)),
    b.longest,
  );
  origin = elim b.origin [
    | inl same ↦ inl same
    | inr (n, mem, f, a) ↦ inr (n, Memᴰ.tail mem, f, a)
  ];
}
  where
    short : is_sub_path mount_path path ≡ true → length mount_path ≤ length found_path
    short h = ground (arith, b.grown)

pub best_mount-IsBest :
    (path : Text) (ms : List MountEntry) (best : Option MountEntry) (best_path : Text)
    {found : Option MountEntry} {found_path : Text}
    → best_mount path ms best best_path ≡ ok (found, found_path)
    → IsBest path ms best best_path found found_path
unfolding best_mount
best_mount-IsBest path [] best best_path {found} {found_path} e = record {
  grown = ground arith;
  longest = tt;
  origin = inl (ground arith, ground arith);
}
best_mount-IsBest path (m ∷ ms) best best_path e =
    elim (Result-cases (normalize_mount_path m.mount_path)) [
      | inr (x, bad) ↦ absurd (cc (rw bad at e))
      | inl (mount_path, good) ↦ elim (Bool-cases (longer path best_path mount_path)) [
        | inl l ↦
            IsBest-taken path m ms best best_path mount_path good l
              (best_mount-IsBest path ms (some m) mount_path (rw (good, l) at e))
        | inr l ↦
            IsBest-left path m ms best best_path mount_path good l
              (best_mount-IsBest path ms best best_path (rw (good, l) at e))
      ]
    ]
