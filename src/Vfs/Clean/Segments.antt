-- ===== src/Vfs/Clean/Segments.antt =====
-- Parts of a path: what `split_slash` and `slashed` have to do with one another.
use mathlib.Core.List.{append_assoc}
use yunxia.Prelude.{
  ℕ, List, [], ◌∷◌, ◌++◌, Text, txt, ◌≡◌, ◌≢◌, refl, ap, ◌∙◌, arith, All, not, is_empty, keep,
  Bool-cases, inl, inr, ◌==◌,
}
use yunxia.Vfs.Clean.{slash, split_slash, slashed, absolute, extend_head}

abbrev pub NoSlash : Text → Type 0
NoSlash [] = Unit
NoSlash (c ∷ s) = (c ≢ slash) × NoSlash s

-- A part that a clean absolute path may hold.
abbrev pub IsSegment : Text → Type 0
IsSegment p = (p ≢ []) × (p ≢ txt ".") × (p ≢ txt "..") × NoSlash p

abbrev pub AllSegments : List Text → Type 0
AllSegments = All IsSegment

-- The parts of an absolute path.
abbrev pub segments : Text → List Text
segments p = keep (λ part. not (is_empty part)) (split_slash p)

extend_head-NoSlash :
    (c : ℕ) (ps : List Text) → c ≢ slash → All NoSlash ps → All NoSlash (extend_head c ps)
extend_head-NoSlash c [] n h = ((n, tt), tt)
extend_head-NoSlash c (p ∷ ps) n (h, hs) = ((n, h), hs)

pub split_slash-NoSlash : (s : Text) → All NoSlash (split_slash s)
unfolding split_slash
split_slash-NoSlash [] = (tt, tt)
split_slash-NoSlash (c ∷ s) = elim (Bool-cases (c == slash)) [
  | inl e ↦ rw e (tt, split_slash-NoSlash s)
  | inr e ↦ rw e (extend_head-NoSlash c (split_slash s) (ground arith) (split_slash-NoSlash s))
]

split_part :
    (p : Text) {ps : List Text} (s : Text)
    → NoSlash p
    → split_slash s ≡ [] ∷ ps
    → split_slash (p ++ s) ≡ p ∷ ps
unfolding split_slash
split_part [] s h e = e
split_part (c ∷ p) s (n, h) e = ground (arith, split_part p s h e)

pub split_slash-slashed : (ps : List Text) → All NoSlash ps → split_slash (slashed ps) ≡ [] ∷ ps
unfolding split_slash
split_slash-slashed [] h = refl
split_slash-slashed (p ∷ ps) (h, hs) =
    ap (λ r. [] ∷ r) (split_part p (slashed ps) h (split_slash-slashed ps hs))

pub NoSlash-of : (ps : List Text) → AllSegments ps → All NoSlash ps
NoSlash-of [] h = tt
NoSlash-of (p ∷ ps) (h, hs) = (h.3, NoSlash-of ps hs)

keep_segments : (ps : List Text) → AllSegments ps → keep (λ part. not (is_empty part)) ps ≡ ps
keep_segments [] h = refl
keep_segments ([] ∷ ps) (h, hs) = absurd (h.0 refl)
keep_segments ((c ∷ p) ∷ ps) (h, hs) = ap (λ r. (c ∷ p) ∷ r) (keep_segments ps hs)

pub segments-absolute : (ps : List Text) → AllSegments ps → segments (absolute ps) ≡ ps
unfolding split_slash
segments-absolute [] h = refl
segments-absolute (p ∷ ps) h =
    ap (keep (λ part. not (is_empty part))) (split_slash-slashed (p ∷ ps) (NoSlash-of (p ∷ ps) h))
    ∙ keep_segments (p ∷ ps) h

split_slash-cons : (s : Text) → (p : Text) × (ps : List Text) × (split_slash s ≡ p ∷ ps)
unfolding split_slash
split_slash-cons [] = ([], [], refl)
split_slash-cons (c ∷ s) =
    let (p, ps, e) = split_slash-cons s in
    elim (Bool-cases (c == slash)) [
      | inl h ↦ ([], split_slash s, rw h)
      | inr h ↦ (c ∷ p, ps, rw (h, e))
    ]

pub split_slash-append :
    (s r : Text) → split_slash (s ++ slash ∷ r) ≡ split_slash s ++ split_slash r
unfolding split_slash
split_slash-append [] r = refl
split_slash-append (c ∷ s) r =
    let (p, ps, e) = split_slash-cons s in
    elim (Bool-cases (c == slash)) [
      | inl h ↦ rw (h, split_slash-append s r)
      | inr h ↦ rw (h, split_slash-append s r, e)
    ]

pub slashed-append : (ps qs : List Text) → slashed (ps ++ qs) ≡ slashed ps ++ slashed qs
slashed-append [] qs = refl
slashed-append (p ∷ ps) qs = rw (slashed-append ps qs, append_assoc)

pub AllSegments-append :
    (ps qs : List Text) → AllSegments ps → AllSegments qs → AllSegments (ps ++ qs)
AllSegments-append [] qs hp hq = hq
AllSegments-append (p ∷ ps) qs (h, hp) hq = (h, AllSegments-append ps qs hp hq)
