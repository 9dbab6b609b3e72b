-- ===== src/Vfs/Registry/Entries.antt =====
-- The entries that the registry builds, and the check of a new mount path.
use mathlib.Core.List.{Memᴰ}
use yunxia.Prelude.{
  ℕ, List, [], ◌∷◌, true, false, Text, is_empty, str_eq, str_eq_iff, some, ok, ok_injective, ◌≡◌,
  refl, All, inl, inr, ◌⊎◌, Bool-cases, Result-cases,
}
use yunxia.Vfs.Path.{normalize_virtual_path, normalize_mount_path}
use yunxia.Vfs.Path.Normal.{normalize_virtual_path_idempotent}
use yunxia.Vfs.Mounts.{
  StorageSource, MountEntry, ResolvedPath, resolve_virtual_path_by_longest_prefix,
}
use yunxia.Vfs.Mounts.Totality.{AllNormalize, resolve_virtual_path_by_longest_prefix_total}
use yunxia.Vfs.Registry.{
  mount_path_of, build_mount_entries, is_source, conflicts, has_mount_path_conflict,
}

-- An entry made from a source.
abbrev pub EntryOf : StorageSource → MountEntry → Type 0
EntryOf s m = (m.source ≡ some s) × (normalize_mount_path (mount_path_of s) ≡ ok m.mount_path)

-- Every entry is normalized and comes from a source of the list.
abbrev pub FromSources : List StorageSource → MountEntry → Type 0
FromSources ss m = (s : StorageSource) × Memᴰ s ss × EntryOf s m

build_mount_entries-FromSources :
    (ss all : List StorageSource) {ms : List MountEntry}
    → ((s : StorageSource) → Memᴰ s ss → Memᴰ s all)
    → build_mount_entries ss ≡ ok ms
    → All (FromSources all) ms
unfolding build_mount_entries
build_mount_entries-FromSources [] all sub e = rw (← ok_injective e) tt
build_mount_entries-FromSources (s ∷ ss) all {ms} sub e =
    let ih = λ (items : List MountEntry) (f : build_mount_entries ss ≡ ok items).
      build_mount_entries-FromSources ss all {ms = items} (λ t m. sub t (Memᴰ.tail m)) f in
    elim (Bool-cases (is_empty (mount_path_of s))) [
      | inl skip ↦ ih ms (rw skip at e)
      | inr keep ↦ elim (Result-cases (normalize_mount_path (mount_path_of s))) [
        | inr (x, bad) ↦ absurd (cc (rw (keep, bad) at e))
        | inl (p, good) ↦ elim (Result-cases (build_mount_entries ss)) [
          | inr (x, bad) ↦ absurd (cc (rw (keep, good, bad) at e))
          | inl (items, f) ↦
              rw (← ok_injective (rw (keep, good, f) at e))
                ((s, sub s (Memᴰ.head refl), (refl, good)), ih items f)
        ]
      ]
    ]

AllNormalize-entries :
    (ss : List StorageSource) (ms : List MountEntry) → All (FromSources ss) ms → AllNormalize ms
AllNormalize-entries ss [] h = tt
AllNormalize-entries ss (m ∷ ms) ((s, _, (_, e)), h) = (
  (m.mount_path, normalize_virtual_path_idempotent (mount_path_of s) e),
  AllNormalize-entries ss ms h,
)

-- Over the entries that the registry builds, every path that normalizes is resolved, and each entry
-- is normalized and belongs to one of the sources.
pub build_mount_entries_resolves :
    (ss : List StorageSource) {ms : List MountEntry} (p : Text) {path : Text}
    → build_mount_entries ss ≡ ok ms
    → normalize_virtual_path p ≡ ok path
    → All (FromSources ss) ms
      × ((r : ResolvedPath) × (resolve_virtual_path_by_longest_prefix p ms ≡ ok r))
build_mount_entries_resolves ss {ms} p e n =
    let from = build_mount_entries-FromSources ss ss (λ s m. m) e in
    (from, resolve_virtual_path_by_longest_prefix_total p ms n (AllNormalize-entries ss ms from))

-- Another source's entry has the path.
abbrev pub Clashes : Text → ℕ → MountEntry → Type 0
Clashes path exclude_id m = (is_source exclude_id m.source ≡ false) × (m.mount_path ≡ path)

conflicts-found :
    (path : Text) (exclude_id : ℕ) (ms : List MountEntry)
    → conflicts path exclude_id ms ≡ true
    → (m : MountEntry) × Memᴰ m ms × Clashes path exclude_id m
unfolding conflicts
conflicts-found path x [] e = cc
conflicts-found path x (m ∷ ms) e = elim (Bool-cases (is_source x m.source)) [
  | inl own ↦ let (n, mem, c) = conflicts-found path x ms (rw own at e) in (n, Memᴰ.tail mem, c)
  | inr other ↦ elim (Bool-cases (str_eq m.mount_path path)) [
    | inl same ↦ (m, Memᴰ.head refl, (other, (str_eq_iff m.mount_path path).0 same))
    | inr differs ↦
        let (n, mem, c) = conflicts-found path x ms (rw (other, differs) at e) in
        (n, Memᴰ.tail mem, c)
  ]
]

conflicts-none :
    (path : Text) (exclude_id : ℕ) (ms : List MountEntry)
    → conflicts path exclude_id ms ≡ false
    → All (λ m. ¬ Clashes path exclude_id m) ms
unfolding conflicts
conflicts-none path x [] e = tt
conflicts-none path x (m ∷ ms) e = elim (Bool-cases (is_source x m.source)) [
  | inl own ↦ ((λ c. cc (own, c.0)), conflicts-none path x ms (rw own at e))
  | inr other ↦ elim (Bool-cases (str_eq m.mount_path path)) [
    | inl same ↦ absurd (cc (rw (other, same) at e))
    | inr differs ↦ (
      (λ c. cc ((str_eq_iff m.mount_path path).1 c.1)),
      conflicts-none path x ms (rw (other, differs) at e),
    )
  ]
]

-- The answer for a mount path that normalizes, over sources whose entries can be built: `true` only
-- if the entry of a source other than the excluded one has the path, `false` only if none has; and
-- there is always an answer.
pub has_mount_path_conflict_answers :
    (ss : List StorageSource) (mount_path : Text) (exclude_id : ℕ) {ms : List MountEntry}
    {path : Text}
    → build_mount_entries ss ≡ ok ms
    → normalize_mount_path mount_path ≡ ok path
    → ((has_mount_path_conflict (ok ss) mount_path exclude_id ≡ ok true)
        × ((m : MountEntry) × Memᴰ m ms × Clashes path exclude_id m))
      ⊎ (has_mount_path_conflict (ok ss) mount_path exclude_id ≡ ok false)
        × All (λ m. ¬ Clashes path exclude_id m) ms
unfolding has_mount_path_conflict
has_mount_path_conflict_answers ss mount_path x {ms} {path} e n =
    elim (Bool-cases (conflicts path x ms)) [
      | inl c ↦ inl (rw (n, e, c), conflicts-found path x ms c)
      | inr c ↦ inr (rw (n, e, c), conflicts-none path x ms c)
    ]
