-- ===== src/Vfs/Path/Normal.antt =====
-- What `normalize_virtual_path` returns: the absolute path of some segments, with no `..` in it.
use yunxia.Prelude.{
  List, [], ◌∷◌, true, false, Text, txt, is_empty, has_prefix, contains, if◌then◌else◌, ◌≡◌, refl,
  sym, ap, ◌∙◌, arith, ok, err, ok_injective, path_invalid, Bool-cases, inl, inr,
}
use yunxia.Vfs.Clean.{absolute, clean}
use yunxia.Vfs.Clean.Segments.{AllSegments, segments, segments-absolute}
use yunxia.Vfs.Clean.Laws.{clean-absolute, clean_segments, has_prefix-absolute}
use yunxia.Vfs.Path.{normalize_virtual_path, normalize_nonempty}

pub record IsNormal (q : Text) : Type 0 where
  pub parts : List Text
  pub path : q ≡ absolute parts
  pub clean_parts : AllSegments parts
  pub undotted : contains q (txt "..") ≡ false

-- The code's path, with what `clean` makes of it put in.
normalize_nonempty_rooted :
    (p : Text) (ps : List Text)
    → has_prefix p (txt "/") ≡ true
    → clean p ≡ absolute ps
    → normalize_nonempty p
      ≡ (if contains (absolute ps) (txt "..") then err path_invalid else ok (absolute ps))
unfolding normalize_nonempty
normalize_nonempty_rooted p ps root c = rw (root, c, has_prefix-absolute ps)

IsNormal-of_test :
    (ps : List Text) {q : Text}
    → AllSegments ps
    → (if contains (absolute ps) (txt "..") then err path_invalid else ok (absolute ps)) ≡ ok q
    → IsNormal q
IsNormal-of_test ps {q} h e = elim (Bool-cases (contains (absolute ps) (txt ".."))) [
  | inl bad ↦ absurd (ground arith)
  | inr good ↦
      let same : q ≡ absolute ps = ground arith in
      record { parts = ps; path = same; clean_parts = h; undotted = rw same good }
]

normalize_nonempty-IsNormal : (p : Text) {q : Text} → normalize_nonempty p ≡ ok q → IsNormal q
unfolding normalize_nonempty
normalize_nonempty-IsNormal p {q} e = elim (Bool-cases (has_prefix p (txt "/"))) [
  | inr out ↦ absurd (ground arith)
  | inl root ↦
      let (ps, c, h) = clean-absolute p root in
      IsNormal-of_test ps h (sym (normalize_nonempty_rooted p ps root c) ∙ e)
]

-- What `normalize_virtual_path` returns is `/`, or the segments of the path each behind a slash:
-- none is empty, `.` or `..`, none holds a slash, and `..` stands nowhere in the path.
pub normalize_virtual_path-IsNormal :
    (p : Text) {q : Text} → normalize_virtual_path p ≡ ok q → IsNormal q
unfolding normalize_virtual_path
normalize_virtual_path-IsNormal p e =
    normalize_nonempty-IsNormal (if is_empty p then txt "/" else p) e

pub is_empty-absolute : (ps : List Text) → is_empty (absolute ps) ≡ false
is_empty-absolute [] = refl
is_empty-absolute (p ∷ ps) = refl

-- A path in normal form is returned as it is.
pub normalize_virtual_path_normal : {q : Text} → IsNormal q → normalize_virtual_path q ≡ ok q
unfolding normalize_virtual_path
normalize_virtual_path_normal {q} n = rw (
  n.path,
  is_empty-absolute n.parts,
  normalize_nonempty_rooted (absolute n.parts) n.parts (has_prefix-absolute n.parts)
      (clean_segments n.parts n.clean_parts),
  rw n.path at n.undotted,
)

-- Normalizing a second time changes nothing.
pub normalize_virtual_path_idempotent :
    (p : Text) {q : Text} → normalize_virtual_path p ≡ ok q → normalize_virtual_path q ≡ ok q
normalize_virtual_path_idempotent p e =
    normalize_virtual_path_normal (normalize_virtual_path-IsNormal p e)

-- A normal path is put together from its parts.
pub segments-IsNormal : {q : Text} (n : IsNormal q) → segments q ≡ n.parts
segments-IsNormal n = ap segments n.path ∙ segments-absolute n.parts n.clean_parts

pub AllSegments-IsNormal : {q : Text} → IsNormal q → AllSegments (segments q)
AllSegments-IsNormal n = rw (segments-IsNormal n) n.clean_parts

pub absolute-segments : {q : Text} → IsNormal q → absolute (segments q) ≡ q
absolute-segments n = ap absolute (segments-IsNormal n) ∙ sym n.path

-- A clean absolute path is left as it is, or refused for a `..` in a name.
pub normalize_virtual_path-absolute :
    (ps : List Text) {q : Text}
    → AllSegments ps
    → normalize_virtual_path (absolute ps) ≡ ok q
    → q ≡ absolute ps
unfolding normalize_virtual_path
normalize_virtual_path-absolute ps {q} h e =
    let e' =
      sym
        (normalize_nonempty_rooted (absolute ps) ps (has_prefix-absolute ps) (clean_segments ps h))
      ∙ (rw (is_empty-absolute ps) at e) in
    elim (Bool-cases (contains (absolute ps) (txt ".."))) [
      | inl bad ↦ absurd (cc (rw bad at e'))
      | inr good ↦ sym (ok_injective (rw good at e'))
    ]
