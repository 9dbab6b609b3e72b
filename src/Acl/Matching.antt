-- ===== src/Acl/Matching.antt =====
-- Which targets a rule's path covers.
use mathlib.Core.List.{reverse-append, reverse-reverse, append_assoc}
use yunxia.Prelude.{
  List, [], ◌∷◌, ◌++◌, reverse, Bool, true, false, Text, txt, str_eq_iff, has_prefix, trim_prefix,
  trim_suffix, ◌≡◌, ◌≢◌, ◌↔◌, ◌⊎◌, inl, inr, refl, sym, ap, ◌∙◌, arith,
}
use yunxia.Vfs.Clean.{slash, slashed, absolute}
use yunxia.Vfs.Clean.Segments.{NoSlash, IsSegment, AllSegments, segments}
use yunxia.Vfs.Clean.Laws.{has_prefix-absolute}
use yunxia.Vfs.Path.{below}
use yunxia.Vfs.Path.Normal.{IsNormal}
use yunxia.Vfs.Path.Names.{NoSlash-reverse_aux, snoc-cases, All-init, absolute-snoc}
use yunxia.Vfs.Path.Ancestry.{Leads, below_iff}
use yunxia.Acl.{path_matches}

has_prefix-NoSlash : (p s : Text) → NoSlash p → p ≢ [] → has_prefix (p ++ s) (txt "/") ≡ false
has_prefix-NoSlash [] s h n = absurd (n refl)
has_prefix-NoSlash (c ∷ p) s (k, h) n = ground arith

-- A path that ends in a segment does not end in a slash.
trim_suffix-segment :
    (s p : Text) → IsSegment p → trim_suffix (s ++ slash ∷ p) (txt "/") ≡ s ++ slash ∷ p
trim_suffix-segment s p h =
    ap (λ t. reverse (trim_prefix t (txt "/"))) back
    ∙ (rw (
        has_prefix-NoSlash (reverse p) (reverse (s ++ txt "/")) (NoSlash-reverse_aux p [] h.3 tt)
          filled))
    ∙ ap reverse (sym back)
    ∙ reverse-reverse (s ++ slash ∷ p)
  where
    filled : reverse p ≢ []
    filled e = h.0 (sym (reverse-reverse p) ∙ ap reverse e)

    back : reverse (s ++ slash ∷ p) ≡ reverse p ++ reverse (s ++ txt "/")
    back = ap reverse (sym (append_assoc s (txt "/") p)) ∙ reverse-append (s ++ txt "/") p

trim_suffix-absolute :
    (ps : List Text)
    → AllSegments ps
    → (ps ≡ []) ⊎ (trim_suffix (absolute ps) (txt "/") ≡ absolute ps)
trim_suffix-absolute ps h = elim (snoc-cases ps) [
  | inl e ↦ inl e
  | inr (qs, q, e) ↦
      let last = (All-init qs q (rw (← e) h)).1 in
      inr (rw (e, absolute-snoc qs q) (trim_suffix-segment (slashed qs) q last))
]

trim_suffix-normal : {r : Text} → IsNormal r → (r ≡ txt "/") ⊎ (trim_suffix r (txt "/") ≡ r)
trim_suffix-normal n = elim (trim_suffix-absolute n.parts n.clean_parts) [
  | inl e ↦ inl (n.path ∙ ap absolute e)
  | inr e ↦ inr (rw n.path e)
]

has_prefix-normal : {t : Text} → IsNormal t → has_prefix t (txt "/") ≡ true
has_prefix-normal n = rw n.path (has_prefix-absolute n.parts)

-- With inheritance, the test is that of `isSubPath`.
path_matches-below : (r t : Text) → IsNormal r → IsNormal t → path_matches true r t ≡ below r t
unfolding path_matches below
path_matches-below r t nr nt = elim (trim_suffix-normal nr) [
  | inl e ↦
      ground (arith, has_prefix-normal nt, str_eq_iff r t, str_eq_iff t r, str_eq_iff r (txt "/"))
  | inr e ↦
      rw e (
        ground
          (arith, has_prefix-normal nt, str_eq_iff r t, str_eq_iff t r, str_eq_iff r (txt "/")))
]

-- Between normalized paths, a rule's path covers itself, and, if the rule is inherited, exactly the
-- paths whose first segments are its own: `/a` covers `/a/b`, and not `/ab`.
pub path_matches_iff :
    (inherit : Bool) (r t : Text)
    → IsNormal r
    → IsNormal t
    → (path_matches inherit r t ≡ true)
      ↔ ((r ≡ t) ⊎ (inherit ≡ true) × Leads (segments r) (segments t))
unfolding path_matches
path_matches_iff false r t nr nt = ((λ h. inl ((str_eq_iff r t).0 (ground arith))), exactly)
  where
    exactly :
        (r ≡ t) ⊎ (false ≡ true) × Leads (segments r) (segments t) → path_matches false r t ≡ true
    exactly (inl e) = ground (arith, str_eq_iff r t)
    exactly (inr (e, _)) = cc
path_matches_iff true r t nr nt =
    ((λ h. inr (refl, (below_iff nr nt).0 (sym (path_matches-below r t nr nt) ∙ h))), covered)
  where
    covered :
        (r ≡ t) ⊎ (true ≡ true) × Leads (segments r) (segments t) → path_matches true r t ≡ true
    covered (inl e) = ground (arith, str_eq_iff r t)
    covered (inr (_, l)) = path_matches-below r t nr nt ∙ (below_iff nr nt).1 l
