-- ===== src/Vfs/Path/Names.antt =====
-- The parent and the name of the path of some segments, and the path of one segment more.
use yunxia.Prelude.{
  List, [], ◌∷◌, ◌++◌, reverse, false, Text, txt, is_empty, has_prefix, ◌≡◌, refl, sym, ap, ◌∙◌,
  arith, inl, inr, ◌⊎◌, ◌≢◌, str_eq,
}
use mathlib.Core.List.{append_assoc, append-nil, reverse_aux, reverse-append, reverse-reverse}
use yunxia.Vfs.Clean.{slash, split_slash, slashed, absolute}
use yunxia.Vfs.Clean.Segments.{NoSlash, IsSegment, AllSegments, split_slash-append, slashed-append}
use yunxia.Vfs.Clean.Laws.{clean_trailing}
use yunxia.Vfs.Path.{
  dir_part, last_part, last_of, drop_slashes, or_slash, dir, base, join_virtual_path,
}

dir_part-NoSlash : (p : Text) → NoSlash p → dir_part p ≡ []
unfolding dir_part
dir_part-NoSlash [] h = refl
dir_part-NoSlash (c ∷ p) (n, h) = ground (arith, dir_part-NoSlash p h)

is_empty-snoc : (s : Text) → is_empty (s ++ slash ∷ []) ≡ false
is_empty-snoc [] = refl
is_empty-snoc (c ∷ s) = refl

dir_part-slash : (s p : Text) → NoSlash p → dir_part (s ++ slash ∷ p) ≡ s ++ slash ∷ []
unfolding dir_part
dir_part-slash [] p h = rw (dir_part-NoSlash p h)
dir_part-slash (c ∷ s) p h = ground (arith, dir_part-slash s p h, is_empty-snoc s)

pub slashed-snoc : (ps : List Text) (p : Text) → slashed (ps ++ p ∷ []) ≡ slashed ps ++ slash ∷ p
slashed-snoc ps p = slashed-append ps (p ∷ []) ∙ ap (λ t. slashed ps ++ slash ∷ t) (append-nil p)

pub absolute-snoc : (ps : List Text) (p : Text) → absolute (ps ++ p ∷ []) ≡ slashed ps ++ slash ∷ p
absolute-snoc [] p = slashed-snoc [] p
absolute-snoc (q ∷ ps) p = slashed-snoc (q ∷ ps) p

-- The parent of a path is the path of all its segments but the last.
pub dir-snoc :
    (ps : List Text) (p : Text)
    → AllSegments ps
    → IsSegment p
    → dir (absolute (ps ++ p ∷ [])) ≡ absolute ps
unfolding dir
dir-snoc ps p hs h =
    rw (absolute-snoc ps p, dir_part-slash (slashed ps) p h.3) (clean_trailing ps hs)

split_slash-NoSlash_one : (p : Text) → NoSlash p → split_slash p ≡ p ∷ []
unfolding split_slash
split_slash-NoSlash_one [] h = refl
split_slash-NoSlash_one (c ∷ p) (n, h) = ground (arith, split_slash-NoSlash_one p h)

last_of-snoc : (ps : List Text) (p : Text) → last_of (ps ++ p ∷ []) ≡ p
last_of-snoc [] p = refl
last_of-snoc (q ∷ []) p = refl
last_of-snoc (q ∷ r ∷ ps) p = last_of-snoc (r ∷ ps) p

last_part-snoc : (s p : Text) → NoSlash p → last_part (s ++ slash ∷ p) ≡ p
unfolding last_part
last_part-snoc s p h =
    rw (split_slash-append s p, split_slash-NoSlash_one p h) (last_of-snoc (split_slash s) p)

pub NoSlash-reverse_aux : (s t : Text) → NoSlash s → NoSlash t → NoSlash (reverse_aux s t)
NoSlash-reverse_aux [] t h k = k
NoSlash-reverse_aux (c ∷ s) t (n, h) k = NoSlash-reverse_aux s (c ∷ t) h (n, k)

drop_slashes-NoSlash : (p s : Text) → NoSlash p → p ≢ [] → drop_slashes (p ++ s) ≡ p ++ s
drop_slashes-NoSlash [] s h n = absurd (n refl)
drop_slashes-NoSlash (c ∷ p) s (k, h) n = ground arith

strip-segment :
    (s p : Text) → NoSlash p → p ≢ [] → reverse (drop_slashes (reverse (s ++ p))) ≡ s ++ p
strip-segment s p h n =
    ap (λ t. reverse (drop_slashes t)) (reverse-append s p)
    ∙ ap reverse
        (drop_slashes-NoSlash (reverse p) (reverse s) (NoSlash-reverse_aux p [] h tt) filled)
    ∙ ap reverse (sym (reverse-append s p))
    ∙ reverse-reverse (s ++ p)
  where
    filled : reverse p ≢ []
    filled e = n (sym (reverse-reverse p) ∙ ap reverse e)

strip-snoc :
    (s p : Text) → IsSegment p → reverse (drop_slashes (reverse (s ++ slash ∷ p))) ≡ s ++ slash ∷ p
strip-snoc s p h =
    ap (λ t. reverse (drop_slashes (reverse t))) (sym (append_assoc s (txt "/") p))
    ∙ strip-segment (s ++ txt "/") p h.3 h.0
    ∙ append_assoc s (txt "/") p

or_slash-filled : (p : Text) → p ≢ [] → or_slash p ≡ p
or_slash-filled [] n = absurd (n refl)
or_slash-filled (c ∷ p) n = refl

base_filled :
    (s : Text)
    → is_empty s ≡ false
    → base s ≡ or_slash (last_part (reverse (drop_slashes (reverse s))))
unfolding base
base_filled [] h = cc
base_filled (c ∷ s) h = refl

is_empty-middle : (s p : Text) → is_empty (s ++ slash ∷ p) ≡ false
is_empty-middle [] p = refl
is_empty-middle (c ∷ s) p = refl

-- The name of a path is its last segment.
pub base-snoc : (ps : List Text) (p : Text) → IsSegment p → base (absolute (ps ++ p ∷ [])) ≡ p
base-snoc ps p h =
    ap base (absolute-snoc ps p)
    ∙ base_filled (slashed ps ++ slash ∷ p) (is_empty-middle (slashed ps) p)
    ∙ ap (λ t. or_slash (last_part t)) (strip-snoc (slashed ps) p h)
    ∙ ap or_slash (last_part-snoc (slashed ps) p h.3)
    ∙ or_slash-filled p h.0

pub has_prefix-segment : (p : Text) → NoSlash p → p ≢ [] → has_prefix p (txt "/") ≡ false
has_prefix-segment [] h n = absurd (n refl)
has_prefix-segment (c ∷ p) (k, h) n = ground arith

pub str_eq-root :
    (p : Text) (ps : List Text) → IsSegment p → str_eq (slashed (p ∷ ps)) (txt "/") ≡ false
str_eq-root [] ps h = absurd (h.0 refl)
str_eq-root (c ∷ p) ps h = refl

-- Joining a segment to a path adds it at the end.
pub join_virtual_path-snoc :
    (ps : List Text) (p : Text)
    → AllSegments ps
    → IsSegment p
    → join_virtual_path (absolute ps) p ≡ absolute (ps ++ p ∷ [])
unfolding join_virtual_path
join_virtual_path-snoc [] p hs h = rw (has_prefix-segment p h.3 h.0, append-nil p)
join_virtual_path-snoc (q ∷ ps) p hs h =
    rw (str_eq-root q ps hs.0, has_prefix-segment p h.3 h.0)
      (append_assoc (slashed (q ∷ ps)) (txt "/") p ∙ sym (absolute-snoc (q ∷ ps) p))

pub snoc-cases :
    (ps : List Text) → (ps ≡ []) ⊎ ((qs : List Text) × (q : Text) × (ps ≡ qs ++ q ∷ []))
snoc-cases [] = inl refl
snoc-cases (p ∷ ps) = elim (snoc-cases ps) [
  | inl e ↦ inr ([], p, rw e)
  | inr (qs, q, e) ↦ inr (p ∷ qs, q, rw e)
]

pub All-init :
    (ps : List Text) (p : Text) → AllSegments (ps ++ p ∷ []) → AllSegments ps × IsSegment p
All-init [] p (h, _) = (tt, h)
All-init (q ∷ ps) p (h, hs) = let (is, l) = All-init ps p hs in ((h, is), l)
