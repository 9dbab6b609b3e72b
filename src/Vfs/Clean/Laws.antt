-- ===== src/Vfs/Clean/Laws.antt =====
-- Laws of `clean` on absolute paths.
use yunxia.Prelude.{
  List, [], ◌∷◌, ◌++◌, reverse, Text, txt, ◌≡◌, refl, sym, ap, ◌∙◌, arith, All, All-reverse_aux,
  true, str_eq_iff, has_prefix,
}
use mathlib.Core.List.{append-nil, append_assoc, reverse-cons}
use yunxia.Vfs.Clean.{slash, split_slash, slashed, absolute, resolve, resolve_all, clean}
use yunxia.Vfs.Clean.Segments.{
  NoSlash, IsSegment, AllSegments, split_slash-NoSlash, split_slash-slashed, NoSlash-of,
  split_slash-append,
}

resolve-AllSegments :
    (stack : List Text) (p : Text)
    → AllSegments stack
    → NoSlash p
    → AllSegments (resolve true stack p)
unfolding resolve
resolve-AllSegments [] [] hs h = hs
resolve-AllSegments [] (c ∷ p) hs h =
    ground (arith, str_eq_iff (c ∷ p) (txt "."), str_eq_iff (c ∷ p) (txt ".."))
resolve-AllSegments (top ∷ below) [] hs h = hs
resolve-AllSegments (top ∷ below) (c ∷ p) hs h =
    ground (
      arith,
      str_eq_iff (c ∷ p) (txt "."),
      str_eq_iff (c ∷ p) (txt ".."),
      str_eq_iff top (txt ".."),
    )

resolve_all-AllSegments :
    (stack ps : List Text)
    → AllSegments stack
    → All NoSlash ps
    → AllSegments (resolve_all true stack ps)
unfolding resolve_all
resolve_all-AllSegments stack [] hs h = All-reverse_aux IsSegment stack [] hs tt
resolve_all-AllSegments stack (p ∷ ps) hs (h, k) =
    resolve_all-AllSegments (resolve true stack p) ps (resolve-AllSegments stack p hs h) k

resolve_segment : (stack : List Text) (p : Text) → IsSegment p → resolve true stack p ≡ p ∷ stack
unfolding resolve
resolve_segment stack [] h = absurd (h.0 refl)
resolve_segment stack (c ∷ p) h =
    ground (arith, str_eq_iff (c ∷ p) (txt "."), str_eq_iff (c ∷ p) (txt ".."))

resolve_all_segments :
    (stack ps : List Text) → AllSegments ps → resolve_all true stack ps ≡ reverse stack ++ ps
unfolding resolve_all
resolve_all_segments stack [] h = sym (append-nil _)
resolve_all_segments stack (p ∷ ps) (h, hs) =
    ap (λ s. resolve_all true s ps) (resolve_segment stack p h)
    ∙ resolve_all_segments (p ∷ stack) ps hs
    ∙ (simp (reverse-cons, append_assoc))

-- A clean absolute path is the path of some segments.
pub clean-absolute :
    (s : Text)
    → has_prefix s (txt "/") ≡ true
    → (ps : List Text) × (clean s ≡ absolute ps) × AllSegments ps
unfolding clean
clean-absolute s h = (
  resolve_all true [] (split_slash s),
  rw h,
  resolve_all-AllSegments [] (split_slash s) tt (split_slash-NoSlash s),
)

resolve_all-slashed :
    (ps : List Text) → AllSegments ps → resolve_all true [] (split_slash (slashed ps)) ≡ ps
unfolding resolve_all resolve
resolve_all-slashed ps h =
    ap (resolve_all true []) (split_slash-slashed ps (NoSlash-of ps h))
    ∙ resolve_all_segments [] ps h

pub has_prefix-absolute : (ps : List Text) → has_prefix (absolute ps) (txt "/") ≡ true
has_prefix-absolute [] = refl
has_prefix-absolute (p ∷ ps) = refl

-- Cleaning the path of segments changes nothing.
pub clean_segments : (ps : List Text) → AllSegments ps → clean (absolute ps) ≡ absolute ps
unfolding clean
clean_segments [] h = refl
clean_segments (p ∷ ps) h = ap absolute (resolve_all-slashed (p ∷ ps) h)

resolve_all-trailing :
    (stack ps : List Text) → resolve_all true stack (ps ++ [] ∷ []) ≡ resolve_all true stack ps
unfolding resolve_all resolve
resolve_all-trailing stack [] = refl
resolve_all-trailing stack (p ∷ ps) = resolve_all-trailing (resolve true stack p) ps

has_prefix-slashed_root : (ps : List Text) → has_prefix (slashed ps ++ txt "/") (txt "/") ≡ true
has_prefix-slashed_root [] = refl
has_prefix-slashed_root (p ∷ ps) = refl

-- A slash at the end is cleaned away.
pub clean_trailing : (ps : List Text) → AllSegments ps → clean (slashed ps ++ txt "/") ≡ absolute ps
unfolding clean
clean_trailing ps h = rw (has_prefix-slashed_root ps) (
    ap (λ t. absolute (resolve_all true [] t)) (split_slash-append (slashed ps) [])
    ∙ ap (λ t. absolute (resolve_all true [] (t ++ [] ∷ [])))
        (split_slash-slashed ps (NoSlash-of ps h))
    ∙ ap absolute (resolve_all-trailing [] ([] ∷ ps))
    ∙ ap absolute (resolve_all_segments [] ps h))

-- A second slash at the front is cleaned away.
pub clean_doubled : (ps : List Text) → AllSegments ps → clean (slash ∷ slashed ps) ≡ absolute ps
unfolding clean resolve_all resolve split_slash
clean_doubled ps h = ap absolute (resolve_all-slashed ps h)

pub clean_slashes : clean (slash ∷ slash ∷ []) ≡ absolute []
unfolding clean resolve_all resolve split_slash
clean_slashes = refl
