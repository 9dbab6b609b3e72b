-- ===== src/Shares/Paths.antt =====
-- The path that is opened under a share (`resolveShareTargetPath` in
-- backend/internal/application/service/share_service.go).
use yunxia.Prelude.{
  [], ◌++◌, Bool, true, false, not, Text, txt, str_eq, str_eq_sound, trim_prefix, if◌then◌else◌,
  Result, ok, err, path_invalid, >>=-eq-ok, ok_injective, ◌⊎◌, ◌≡◌, refl, sym, ap, ◌∙◌, inl, inr,
  Bool-cases,
}
use mathlib.Core.List.{append-nil}
use mathlib.Core.Path.{subst}
use yunxia.Vfs.Clean.{absolute, split_slash}
use yunxia.Vfs.Clean.Segments.{segments}
use yunxia.Vfs.Path.{normalize_virtual_path}
use yunxia.Vfs.Path.Normal.{
  IsNormal, normalize_virtual_path-IsNormal, AllSegments-IsNormal, absolute-segments,
}
use yunxia.Local.{path_join}
use yunxia.Local.Confined.{joined_normal}
use yunxia.Shares.{
  normalize_share_relative_path, is_within_share_root, actual_of, within_root,
  resolve_share_target_path,
}

-- The two paths of a request, and what they are made of.
pub record IsResolved (share_root requested actual relative : Text) : Type 0 where
  pub root : Text
  pub rooted : normalize_virtual_path share_root ≡ ok root
  pub normal_root : IsNormal root
  pub asked : normalize_share_relative_path requested ≡ ok relative
  pub normal_relative : IsNormal relative
  pub actual_path : actual ≡ absolute (segments root ++ segments relative)

root-IsNormal : IsNormal (txt "/")
root-IsNormal = record { parts = []; path = refl; clean_parts = tt; undotted = refl }

last_branch :
    (a b c : Bool) (r : Result Text) {relative : Text}
    → (if a
        then ok (txt "/")
        else if not b
        then err path_invalid
        else if c
        then err path_invalid
        else r)
      ≡ ok relative
    → (relative ≡ txt "/") ⊎ (r ≡ ok relative)
last_branch true b c r h = inl (sym (ok_injective h))
last_branch false false c r h = absurd (cc)
last_branch false true true r h = absurd (cc)
last_branch false true false r h = inr h

normalize_share_relative_path-IsNormal :
    (requested : Text) {relative : Text}
    → normalize_share_relative_path requested ≡ ok relative
    → IsNormal relative
unfolding normalize_share_relative_path
normalize_share_relative_path-IsNormal requested h =
    elim (last_branch _ _ _ (normalize_virtual_path requested) h) [
      | inl root ↦ subst IsNormal (sym root) root-IsNormal
      | inr normal ↦ normalize_virtual_path-IsNormal requested normal
    ]

-- What is appended to the root, in the three cases of the code.
actual_of-absolute :
    {root relative : Text}
    → IsNormal root
    → IsNormal relative
    → actual_of root relative ≡ absolute (segments root ++ segments relative)
unfolding split_slash
actual_of-absolute {root} {relative} nr nq = elim (Bool-cases (str_eq root (txt "/"))) [
  | inl x ↦ let top = str_eq_sound root (txt "/") x in rw (x, top) (sym (absolute-segments nq))
  | inr x ↦ rw x (
      ap (λ t. path_join t (trim_prefix relative (txt "/"))) (sym (absolute-segments nr))
      ∙ joined_normal (segments root) (AllSegments-IsNormal nr) nq)
]

within_root-ok :
    {root relative actual again : Text}
    → IsNormal root
    → IsNormal relative
    → within_root root relative ≡ ok (actual, again)
    → (actual ≡ absolute (segments root ++ segments relative)) × (again ≡ relative)
unfolding within_root split_slash
within_root-ok {root} {relative} nr nq h = elim (Bool-cases (str_eq relative (txt "/"))) [
  | inl x ↦
      let same = ok_injective (rw x at h) in
      let top = str_eq_sound relative (txt "/") x in
      (
        sym (ap (λ p. p.0) same)
            ∙ sym (absolute-segments nr)
            ∙ ap absolute (sym (append-nil (segments root)))
            ∙ ap (λ t. absolute (segments root ++ segments t)) (sym top),
        sym (ap (λ p. p.1) same),
      )
  | inr x ↦ elim (Bool-cases (is_within_share_root root (actual_of root relative))) [
    | inr y ↦ absurd (cc (rw (x, y) at h))
    | inl y ↦
        let same = ok_injective (rw (x, y) at h) in
        (sym (ap (λ p. p.0) same) ∙ actual_of-absolute nr nq, sym (ap (λ p. p.1) same))
  ]
]

-- A path that a share resolves is the share's root and then the segments of the path that was asked
-- for, both of which are normal: no request leaves the root.
pub resolve_share_target_path-IsResolved :
    (share_root requested : Text) {actual relative : Text}
    → resolve_share_target_path share_root requested ≡ ok (actual, relative)
    → IsResolved share_root requested actual relative
unfolding resolve_share_target_path
resolve_share_target_path-IsResolved share_root requested h =
    let (root, er, h1) = >>=-eq-ok (normalize_virtual_path share_root) _ h in
    let (relative, eq, h2) = >>=-eq-ok (normalize_share_relative_path requested) _ h1 in
    let nr = normalize_virtual_path-IsNormal share_root er in
    let nq = normalize_share_relative_path-IsNormal requested eq in
    let (actual_path, again) = within_root-ok nr nq h2 in
    record {
      root = root;
      rooted = er;
      normal_root = nr;
      asked = eq ∙ ap ok (sym again);
      normal_relative = subst IsNormal (sym again) nq;
      actual_path = actual_path ∙ ap (λ t. absolute (segments root ++ segments t)) (sym again);
    }
