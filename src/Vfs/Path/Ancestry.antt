-- ===== src/Vfs/Path/Ancestry.antt =====
-- `is_sub_path` compares bytes; on normalized paths that is a comparison of whole segments.
use yunxia.Prelude.{
  ℕ, List, [], ◌∷◌, ◌++◌, true, false, Text, txt, has_prefix, ◌≡◌, refl, sym, ap, ◌∙◌, arith, ok,
  Bool-cases, inl, inr, ◌↔◌, ◌≢◌, str_eq, str_eq_iff, str_eq_refl, has_prefix_sound,
  has_prefix-append,
}
use mathlib.Core.List.{append_assoc, append-nil}
use yunxia.Vfs.Clean.{slash, split_slash, slashed, absolute}
use yunxia.Vfs.Clean.Segments.{
  AllSegments, segments, segments-absolute, split_slash-slashed, NoSlash-of, split_slash-append,
  slashed-append,
}
use yunxia.Vfs.Path.Normal.{
  IsNormal, normalize_virtual_path-IsNormal, AllSegments-IsNormal, absolute-segments,
}
use yunxia.Vfs.Path.{normalize_virtual_path, below, is_sub_path}

-- The first path leads to the second.
abbrev pub Leads : List Text → List Text → Type 0
Leads ps qs = (rs : List Text) × (qs ≡ ps ++ rs)

-- A text that begins with the segments and a slash holds the segments first.
Leads-of_text :
    (p : Text) (ps qs : List Text) (r : Text)
    → AllSegments (p ∷ ps)
    → AllSegments qs
    → slashed qs ≡ slashed (p ∷ ps) ++ slash ∷ r
    → Leads (p ∷ ps) qs
Leads-of_text p ps qs r hp hq e = (split_slash r, tails)
  where
    both : [] ∷ qs ≡ ([] ∷ p ∷ ps) ++ split_slash r
    both =
        sym (split_slash-slashed qs (NoSlash-of qs hq))
        ∙ ap split_slash e
        ∙ split_slash-append (slashed (p ∷ ps)) r
        ∙ ap (λ t. t ++ split_slash r) (split_slash-slashed (p ∷ ps) (NoSlash-of (p ∷ ps) hp))

    tails : qs ≡ (p ∷ ps) ++ split_slash r
    tails = cc both

segment_ne : (p : Text) (ps : List Text) → AllSegments (p ∷ ps) → (c : ℕ) × (t : Text) × (p ≡ c ∷ t)
segment_ne [] ps h = absurd (h.0.0 refl)
segment_ne (c ∷ t) ps h = (c, t, refl)

root_no_prefix :
    (p : Text) (ps : List Text) (r : Text)
    → AllSegments (p ∷ ps)
    → txt "/" ≢ slashed (p ∷ ps) ++ slash ∷ r
root_no_prefix [] ps r h e = h.0.0 refl
root_no_prefix (c ∷ p) ps r h e = cc

absolute-Leads :
    (p : Text) (ps qs : List Text) (r : Text)
    → AllSegments (p ∷ ps)
    → AllSegments qs
    → absolute qs ≡ slashed (p ∷ ps) ++ slash ∷ r
    → Leads (p ∷ ps) qs
absolute-Leads p ps [] r hp hq e = absurd (root_no_prefix p ps r hp e)
absolute-Leads p ps (q ∷ qs) r hp hq e = Leads-of_text p ps (q ∷ qs) r hp hq e

str_eq-absolute_root :
    (p : Text) (ps : List Text) → AllSegments (p ∷ ps) → str_eq (slashed (p ∷ ps)) (txt "/") ≡ false
str_eq-absolute_root [] ps h = absurd (h.0.0 refl)
str_eq-absolute_root (c ∷ p) ps h = refl

absolute_injective :
    (ps qs : List Text) → AllSegments ps → AllSegments qs → absolute qs ≡ absolute ps → qs ≡ ps
absolute_injective ps qs hp hq e =
    sym (segments-absolute qs hq) ∙ ap segments e ∙ segments-absolute ps hp

below-Leads :
    (ps qs : List Text)
    → AllSegments ps
    → AllSegments qs
    → below (absolute ps) (absolute qs) ≡ true
    → Leads ps qs
unfolding below
below-Leads [] qs hp hq e = (qs, refl)
below-Leads (p ∷ ps) qs hp hq e = elim (Bool-cases (str_eq (absolute qs) (absolute (p ∷ ps)))) [
  | inl same ↦ (
    [],
    absolute_injective (p ∷ ps) qs hp hq ((str_eq_iff _ _).0 same) ∙ sym (append-nil (p ∷ ps)),
  )
  | inr other ↦
      let tested : has_prefix (absolute qs) (absolute (p ∷ ps) ++ txt "/") ≡ true =
        ground (arith, str_eq-absolute_root p ps hp) in
      let (r, cut) = has_prefix_sound (absolute qs) (absolute (p ∷ ps) ++ txt "/") tested in
      absolute-Leads p ps qs r hp hq (cut ∙ append_assoc (slashed (p ∷ ps)) (txt "/") r)
]

has_prefix-slashed :
    (s r : Text) (rs : List Text) → has_prefix (s ++ slashed (r ∷ rs)) (s ++ txt "/") ≡ true
has_prefix-slashed s r rs =
    rw (← append_assoc s (txt "/") (r ++ slashed rs)) (has_prefix-append (s ++ txt "/") _)

below_extended :
    (p : Text) (ps rs : List Text)
    → AllSegments (p ∷ ps)
    → below (absolute (p ∷ ps)) (absolute ((p ∷ ps) ++ rs)) ≡ true
unfolding below
below_extended p ps [] h =
    rw (append-nil ps, str_eq-absolute_root p ps h, str_eq_refl (slashed (p ∷ ps)))
below_extended p ps (r ∷ rs) h = ground (
  arith,
  str_eq-absolute_root p ps h,
  has_prefix-slashed (slashed (p ∷ ps)) r rs,
  slashed-append (p ∷ ps) (r ∷ rs),
)

has_prefix-root : (qs : List Text) → has_prefix (absolute qs) (txt "/") ≡ true
has_prefix-root [] = refl
has_prefix-root (q ∷ qs) = refl

Leads-below :
    (ps qs : List Text) → AllSegments ps → Leads ps qs → below (absolute ps) (absolute qs) ≡ true
unfolding below
Leads-below [] qs hp l = has_prefix-root qs
Leads-below (p ∷ ps) qs hp (rs, e) = rw e (below_extended p ps rs hp)

pub below_iff :
    {b t : Text} → IsNormal b → IsNormal t → (below b t ≡ true) ↔ Leads (segments b) (segments t)
below_iff {b} {t} nb nt = (
  λ h.
      below-Leads (segments b) (segments t) (AllSegments-IsNormal nb) (AllSegments-IsNormal nt)
        (rw (absolute-segments nb, absolute-segments nt) h),
  λ l. ends (Leads-below (segments b) (segments t) (AllSegments-IsNormal nb) l),
)
  where
    ends : below (absolute (segments b)) (absolute (segments t)) ≡ true → below b t ≡ true
    ends h = rw (absolute-segments nb, absolute-segments nt) at h

pub is_sub_path_normal :
    (base_path target : Text) {b t : Text}
    → normalize_virtual_path base_path ≡ ok b
    → normalize_virtual_path target ≡ ok t
    → is_sub_path base_path target ≡ below b t
unfolding is_sub_path
is_sub_path_normal base_path target eb et = rw (eb, et)

-- For paths that normalize, the textual test holds exactly if the segments of the base are the
-- first segments of the target.
pub is_sub_path_iff :
    (base_path target : Text) {b t : Text}
    → normalize_virtual_path base_path ≡ ok b
    → normalize_virtual_path target ≡ ok t
    → (is_sub_path base_path target ≡ true) ↔ Leads (segments b) (segments t)
is_sub_path_iff base_path target eb et = rw (is_sub_path_normal base_path target eb et) (
    below_iff (normalize_virtual_path-IsNormal base_path eb)
      (normalize_virtual_path-IsNormal target et))
