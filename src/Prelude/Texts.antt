-- ===== src/Prelude/Texts.antt =====
-- Go strings: lists of bytes, with the functions of the standard library's `strings` package that
-- the program calls.
use Prim.Native.Char.{code}
use Prim.Native.String.{String}
use Prim.Native.Nat.{ℕ, zero, suc, ◌-◌}
use mathlib.Core.Path.{◌≡◌, refl}
use mathlib.Core.Logic.{◌↔◌}
use mathlib.Core.Bool.{Bool, true, false, ◌&&◌, ◌||◌}
use mathlib.Core.List.{List, [], ◌∷◌, ◌++◌, reverse}
use native.Mathlib.Omega.{arith}
use yunxia.Prelude.Tests.{leb, ◌==◌, if◌then◌else◌}
use yunxia.Prelude.Lists.{drop, length}

abbrev pub Text : Type 0
Text = List ℕ

-- The bytes of an ASCII literal.
abbrev pub txt : String → Text
txt String.[] = []
txt (String.◌∷◌ c s) = code c ∷ txt s

-- `s == t`
abbrev pub str_eq : Text → Text → Bool
str_eq [] [] = true
str_eq [] (d ∷ t) = false
str_eq (c ∷ s) [] = false
str_eq (c ∷ s) (d ∷ t) = c == d && str_eq s t

abbrev pub is_empty : Text → Bool
is_empty [] = true
is_empty (c ∷ s) = false

-- `strings.HasPrefix(s, prefix)`
abbrev pub has_prefix : Text → Text → Bool
has_prefix s [] = true
has_prefix [] (d ∷ p) = false
has_prefix (c ∷ s) (d ∷ p) = c == d && has_prefix s p

-- `strings.TrimPrefix(s, prefix)`
abbrev pub trim_prefix : Text → Text → Text
trim_prefix s p = if has_prefix s p then drop (length p) s else s

-- `strings.HasSuffix(s, suffix)` and `strings.TrimSuffix(s, suffix)`
abbrev pub has_suffix : Text → Text → Bool
has_suffix s p = has_prefix (reverse s) (reverse p)

abbrev pub trim_suffix : Text → Text → Text
trim_suffix s p = reverse (trim_prefix (reverse s) (reverse p))

-- `strings.Contains(s, sub)`
abbrev pub contains : Text → Text → Bool
contains [] sub = has_prefix [] sub
contains (c ∷ s) sub = has_prefix (c ∷ s) sub || contains s sub

abbrev pub is_space : ℕ → Bool
is_space c = c == 0x20 || (leb 0x09 c && leb c 0x0d)

-- The width of the white space character (UTF-8) at the head of a text; 0 if there is none.
abbrev space_width : Text → ℕ
space_width [] = 0
space_width (a ∷ []) = if is_space a then 1 else 0
space_width (a ∷ b ∷ []) =
    if is_space a then 1 else if a == 0xc2 && (b == 0x85 || b == 0xa0) then 2 else 0
space_width (a ∷ b ∷ c ∷ s) =
    if is_space a
    then 1
    else if a == 0xc2 && (b == 0x85 || b == 0xa0)
    then 2
    else if wide
    then 3
    else 0
  where
    wide : Bool
    wide =
        (a == 0xe1 && b == 0x9a && c == 0x80)
        || (a == 0xe2
            && b == 0x80
            && ((leb 0x80 c && leb c 0x8a) || c == 0xa8 || c == 0xa9 || c == 0xaf))
        || (a == 0xe2 && b == 0x81 && c == 0x9f)
        || (a == 0xe3 && b == 0x80 && c == 0x80)

-- The same for a reversed text.
abbrev space_width_back : Text → ℕ
space_width_back (c ∷ b ∷ a ∷ s) =
    if is_space c
    then 1
    else if space_width (b ∷ c ∷ []) == 2
    then 2
    else if space_width (a ∷ b ∷ c ∷ []) == 3
    then 3
    else 0
space_width_back (c ∷ b ∷ []) =
    if is_space c then 1 else if space_width (b ∷ c ∷ []) == 2 then 2 else 0
space_width_back (c ∷ []) = if is_space c then 1 else 0
space_width_back [] = 0

-- Drop `skip` bytes, then white space characters of the given measure.
trim_with : (Text → ℕ) → ℕ → Text → Text
trim_with width skip [] = []
trim_with width (suc skip) (c ∷ s) = trim_with width skip s
trim_with width zero (c ∷ s) =
    let rest = trim_with width (width (c ∷ s) - 1) s in if width (c ∷ s) == 0 then c ∷ s else rest

-- `strings.TrimSpace(s)`
unfoldable pub trim_space : Text → Text
unfolding trim_with
trim_space s = reverse (trim_with space_width_back 0 (reverse (trim_with space_width 0 s)))

trim_space_test : trim_space (txt " deny\n") ≡ txt "deny"
unfolding trim_space
trim_space_test = refl

pub str_eq_refl : (s : Text) → str_eq s s ≡ true
str_eq_refl [] = refl
str_eq_refl (c ∷ s) = ground (arith, str_eq_refl s)

pub str_eq_sound : (s t : Text) → str_eq s t ≡ true → s ≡ t
str_eq_sound [] [] h = refl
str_eq_sound [] (d ∷ t) h = cc
str_eq_sound (c ∷ s) [] h = cc
str_eq_sound (c ∷ s) (d ∷ t) h = ground (arith, str_eq_sound s t)

pub str_eq_iff : (s t : Text) → (str_eq s t ≡ true) ↔ (s ≡ t)
str_eq_iff s t = (str_eq_sound s t, λ e. rw e (str_eq_refl t))

-- A text has a prefix exactly if it is the prefix and a rest.
pub has_prefix-append : (p s : Text) → has_prefix (p ++ s) p ≡ true
has_prefix-append [] [] = refl
has_prefix-append [] (c ∷ s) = refl
has_prefix-append (d ∷ p) s = ground (arith, has_prefix-append p s)

pub has_prefix_sound : (s p : Text) → has_prefix s p ≡ true → (r : Text) × (s ≡ p ++ r)
has_prefix_sound s [] h = (s, refl)
has_prefix_sound [] (d ∷ p) h = cc
has_prefix_sound (c ∷ s) (d ∷ p) h =
    let tested : has_prefix s p ≡ true = ground arith in
    let (r, e) = has_prefix_sound s p tested in let same : c ≡ d = ground arith in (r, cc)

pub drop-append : (p s : Text) → drop (length p) (p ++ s) ≡ s
drop-append [] s = refl
drop-append (c ∷ p) s = drop-append p s

pub trim_prefix-append : (p s : Text) → trim_prefix (p ++ s) p ≡ s
trim_prefix-append p s = rw (has_prefix-append p s) (drop-append p s)
