-- ===== src/Vfs/Path/Parents.antt =====
-- Taking a path apart into its parent and its name, and putting paths together.
use yunxia.Prelude.{
  List, [], ◌∷◌, ◌++◌, true, false, Text, txt, has_prefix, contains, if◌then◌else◌, ◌≡◌, refl, sym,
  ap, ◌∙◌, arith, Result, ok, >>=-eq-ok, ok_injective, Bool-cases, inl, inr, ◌⊎◌, str_eq,
  has_prefix_sound, has_prefix-append,
}
use mathlib.Core.List.{append_assoc}
use yunxia.Vfs.Clean.{slash, slashed, absolute}
use yunxia.Vfs.Clean.Segments.{NoSlash, IsSegment, AllSegments}
use yunxia.Vfs.Path.Normal.{IsNormal, normalize_virtual_path-IsNormal}
use yunxia.Vfs.Path.Names.{
  absolute-snoc, dir-snoc, base-snoc, str_eq-root, join_virtual_path-snoc, snoc-cases, All-init,
}
use yunxia.Vfs.Path.{
  normalize_virtual_path, dir_part, dir, base, split_parent_name, join_virtual_path,
}

dir_part-NoSlash : (p : Text) → NoSlash p → dir_part p ≡ []
unfolding dir_part
dir_part-NoSlash [] h = refl
dir_part-NoSlash (c ∷ p) (n, h) = ground (arith, dir_part-NoSlash p h)

has_prefix-extend : (s r p : Text) → has_prefix s p ≡ true → has_prefix (s ++ r) p ≡ true
has_prefix-extend s r p h =
    let (t, e) = has_prefix_sound s p h in rw (e, append_assoc p t r) (has_prefix-append p (t ++ r))

contains-nil : (s : Text) → contains s [] ≡ true
contains-nil [] = refl
contains-nil (c ∷ s) = refl

contains-append : (s r sub : Text) → contains (s ++ r) sub ≡ false → contains s sub ≡ false
contains-append [] r [] h = absurd (cc (contains-nil r))
contains-append [] r (d ∷ sub) h = refl
contains-append (c ∷ s) r sub h =
    ground (arith, contains-append s r sub, has_prefix-extend (c ∷ s) r sub)

undotted-init :
    (ps : List Text) (p : Text)
    → contains (absolute (ps ++ p ∷ [])) (txt "..") ≡ false
    → contains (absolute ps) (txt "..") ≡ false
undotted-init [] p h = refl
undotted-init (q ∷ ps) p h =
    contains-append (slashed (q ∷ ps)) (slash ∷ p) (txt "..")
      (sym (ap (λ t. contains t (txt "..")) (absolute-snoc (q ∷ ps) p)) ∙ h)

-- The two outcomes of `split_parent_name` on a path that normalizes to `q`: the root has no name;
-- any other path has a normal parent and a segment for a name, and they join to the path.
abbrev pub IsSplit : Text → Text → Text → Type 0
IsSplit q parent name =
    (q ≡ txt "/") × (parent ≡ txt "/") × (name ≡ [])
    ⊎ IsNormal parent × IsSegment name × (join_virtual_path parent name ≡ q)

str_eq-snoc :
    (ps : List Text) (p : Text)
    → AllSegments ps
    → IsSegment p
    → str_eq (absolute (ps ++ p ∷ [])) (txt "/") ≡ false
str_eq-snoc [] p hs h = str_eq-root p [] h
str_eq-snoc (q ∷ ps) p hs h = str_eq-root q (ps ++ p ∷ []) hs.0

pub absolute-IsNormal :
    (ps : List Text)
    → AllSegments ps
    → contains (absolute ps) (txt "..") ≡ false
    → IsNormal (absolute ps)
absolute-IsNormal ps h d = record { parts = ps; path = refl; clean_parts = h; undotted = d }

abbrev split_of : Text → Text × Text
split_of q = if str_eq q (txt "/") then (txt "/", []) else (dir q, base q)

IsSplit-snoc :
    (ps : List Text) (p : Text)
    → AllSegments ps
    → IsSegment p
    → contains (absolute (ps ++ p ∷ [])) (txt "..") ≡ false
    → let q = absolute (ps ++ p ∷ []) in IsSplit q (split_of q).0 (split_of q).1
IsSplit-snoc ps p hs h d =
    rw (str_eq-snoc ps p hs h, dir-snoc ps p hs h, base-snoc ps p h)
      (inr (absolute-IsNormal ps hs (undotted-init ps p d), h, join_virtual_path-snoc ps p hs h))

IsSplit-normal : (q : Text) → IsNormal q → IsSplit q (split_of q).0 (split_of q).1
IsSplit-normal q n = elim (snoc-cases n.parts) [
  | inl e ↦ let root : q ≡ txt "/" = n.path ∙ ap absolute e in rw root (inl (refl, refl, refl))
  | inr (ps, p, e) ↦
      let same : q ≡ absolute (ps ++ p ∷ []) = n.path ∙ ap absolute e in
      let (hs, h) = All-init ps p (rw (← e) n.clean_parts) in
      rw same (IsSplit-snoc ps p hs h (rw same at n.undotted))
]

abbrev split_ok : Text → Result (Text × Text)
split_ok q = if str_eq q (txt "/") then ok (txt "/", []) else ok (dir q, base q)

split_ok-eq : (q : Text) → split_ok q ≡ ok (split_of q)
split_ok-eq q = elim (Bool-cases (str_eq q (txt "/"))) [ inl e ↦ rw e | inr e ↦ rw e ]

-- Whenever a path is split, it normalizes, and the parts are as in `IsSplit`: only the root has the
-- empty name, and otherwise joining the parent and the name gives the normalized path back.
pub split_parent_name-IsSplit :
    (p : Text) {parent name : Text}
    → split_parent_name p ≡ ok (parent, name)
    → (q : Text) × (normalize_virtual_path p ≡ ok q) × IsSplit q parent name
unfolding split_parent_name
split_parent_name-IsSplit p {parent} {name} h =
    let (q, e, f) = >>=-eq-ok (normalize_virtual_path p) split_ok h in
    let halves : split_of q ≡ (parent, name) = ok_injective (sym (split_ok-eq q) ∙ f) in
    let found = IsSplit-normal q (normalize_virtual_path-IsNormal p e) in (q, e, rw halves at found)
