-- ===== src/Vfs/Mounts/Resolution.antt =====
-- What `resolve_virtual_path_by_longest_prefix` returns.
use mathlib.Core.List.{Memᴰ}
use yunxia.Prelude.{
  List, [], ◌∷◌, Bool, true, false, Text, length, Option, none, some, ok, ok_injective, ◌≡◌, refl,
  sym, ap, ◌∙◌, ◌<◌, arith, All, ◌⊎◌, inl, inr, Result-cases,
}
use yunxia.Vfs.Clean.{absolute}
use yunxia.Vfs.Path.{normalize_virtual_path, merge_mount_and_inner_path}
use yunxia.Vfs.Path.Normal.{
  IsNormal, normalize_virtual_path-IsNormal, normalize_virtual_path_idempotent,
}
use yunxia.Vfs.Path.Ancestry.{is_sub_path_iff}
use yunxia.Vfs.Mounts.Rejoin.{rejoined}
use yunxia.Vfs.Mounts.Below.{StrictlyBelow, mount_below-found, mount_below-none}
use yunxia.Vfs.Mounts.Best.{Above, NoneLonger, IsBest, best_mount-IsBest}
use yunxia.Vfs.Mounts.{
  MountEntry, ResolvedPath, best_mount, mount_below, real_mount, no_mount, finish_resolve,
  resolve_virtual_path_by_longest_prefix,
}

-- A resolution into a mount: it is one of the list above the path, no mount above the path has a
-- longer path, and the mount's path and the inner path merge to the path.
pub record IsRealMount (mounts : List MountEntry) (r : ResolvedPath) : Type 0 where
  pub entry : MountEntry
  pub listed : Memᴰ entry mounts
  pub above : Above r.virtual_path entry r.matched_mount_path
  pub source : r.source ≡ entry.source
  pub real : r.is_real_mount ≡ true
  pub longest : NoneLonger r.virtual_path (length r.matched_mount_path) mounts
  pub merged : merge_mount_and_inner_path r.matched_mount_path r.inner_path ≡ r.virtual_path

-- A resolution outside of all mounts: none is above the path, and the path is a purely virtual
-- directory exactly if some mount is strictly below it.
pub record IsUnmounted (mounts : List MountEntry) (r : ResolvedPath) : Type 0 where
  pub source : r.source ≡ none
  pub unreal : r.is_real_mount ≡ false
  pub none_above : All (λ m. (p : Text) → Above r.virtual_path m p → ⊥) mounts
  pub pure_only :
      r.is_pure_virtual ≡ true → (m : MountEntry) × Memᴰ m mounts × StrictlyBelow r.virtual_path m
  pub pure_all : r.is_pure_virtual ≡ false → All (λ m. ¬ StrictlyBelow r.virtual_path m) mounts

length-normal : {p : Text} → IsNormal p → 0 < length p
length-normal n = rw n.path (filled n.parts)
  where
    filled : (ps : List Text) → 0 < length (absolute ps)
    filled [] = omega arith
    filled (p ∷ ps) = omega arith

none-Above_of :
    (path : Text) (ms : List MountEntry)
    → NoneLonger path 0 ms
    → All (λ m. (p : Text) → Above path m p → ⊥) ms
none-Above_of path [] h = tt
none-Above_of path (m ∷ ms) (h, hs) = (
  λ p a. omega (arith, h p a, length-normal (normalize_virtual_path-IsNormal m.mount_path a.0)),
  none-Above_of path ms hs,
)

real_mount-IsRealMount :
    (p path : Text) (mounts : List MountEntry) (m : MountEntry) (found_path : Text)
    → normalize_virtual_path p ≡ ok path
    → IsBest path mounts none [] (some m) found_path
    → IsRealMount mounts (real_mount path m found_path)
unfolding real_mount
real_mount-IsRealMount p path mounts m found_path e b = elim b.origin [
  | inl (bad, _) ↦ cc
  | inr (n, mem, same, (normal, under)) ↦
      let entry : m ≡ n = cc in
      let settled = normalize_virtual_path_idempotent n.mount_path normal in
      record {
        entry = n;
        listed = mem;
        above = (normal, under);
        source = ap (λ (k : MountEntry). k.source) entry;
        real = refl;
        longest = b.longest;
        merged =
            rejoined (normalize_virtual_path-IsNormal p e)
              (normalize_virtual_path-IsNormal n.mount_path normal)
              ((is_sub_path_iff found_path path settled (normalize_virtual_path_idempotent p e)).0
                under);
      }
]

no_mount-IsUnmounted :
    (path : Text) (mounts : List MountEntry) (found_path : Text) (pure : Bool)
    → IsBest path mounts none [] none found_path
    → mount_below path mounts ≡ ok pure
    → IsUnmounted mounts (no_mount path pure)
unfolding no_mount
no_mount-IsUnmounted path mounts found_path pure b e = record {
  source = refl;
  unreal = refl;
  none_above = elim b.origin [
    | inl (_, empty) ↦ none-Above_of path mounts (rw empty at b.longest)
    | inr (n, mem, bad, a) ↦ absurd (cc bad)
  ];
  pure_only = λ h. mount_below-found path mounts (e ∙ ap ok h);
  pure_all = λ h. mount_below-none path mounts (e ∙ ap ok h);
}

abbrev IsResolution : List MountEntry → Text → ResolvedPath → Type 0
IsResolution mounts path r = (r.virtual_path ≡ path) × (IsRealMount mounts r ⊎ IsUnmounted mounts r)

finish_resolve-IsResolution :
    (p path : Text) (mounts : List MountEntry) (found : Option MountEntry) (found_path : Text)
    {r : ResolvedPath}
    → normalize_virtual_path p ≡ ok path
    → IsBest path mounts none [] found found_path
    → finish_resolve path mounts (found, found_path) ≡ ok r
    → IsResolution mounts path r
unfolding finish_resolve real_mount no_mount
finish_resolve-IsResolution p path mounts (some m) found_path e b f =
    rw (← ok_injective f) (refl, inl (real_mount-IsRealMount p path mounts m found_path e b))
finish_resolve-IsResolution p path mounts none found_path e b f =
    elim (Result-cases (mount_below path mounts)) [
      | inr (x, bad) ↦ absurd (cc (rw bad at f))
      | inl (pure, good) ↦
          let same = ok_injective (rw good at f) in
          rw (← same) (refl, inr (no_mount-IsUnmounted path mounts found_path pure b good))
    ]

-- Whenever a path is resolved, it was normalized, and it resolves into the longest mount above it
-- (`IsRealMount`), or there is none above it (`IsUnmounted`).
pub resolve_virtual_path_by_longest_prefix_sound :
    (p : Text) (mounts : List MountEntry) {r : ResolvedPath}
    → resolve_virtual_path_by_longest_prefix p mounts ≡ ok r
    → (normalize_virtual_path p ≡ ok r.virtual_path) × (IsRealMount mounts r ⊎ IsUnmounted mounts r)
unfolding resolve_virtual_path_by_longest_prefix
resolve_virtual_path_by_longest_prefix_sound p mounts {r} e =
    elim (Result-cases (normalize_virtual_path p)) [
      | inr (x, bad) ↦ absurd (cc (rw bad at e))
      | inl (path, good) ↦ elim (Result-cases (best_mount path mounts none [])) [
        | inr (x, bad) ↦ absurd (cc (rw (good, bad) at e))
        | inl ((found, found_path), best) ↦
            let (same, res) =
              finish_resolve-IsResolution p path mounts found found_path good
                (best_mount-IsBest path mounts none [] best) (rw (good, best) at e) in
            (good ∙ ap ok (sym same), res)
      ]
    ]
