-- ===== src/Vfs/Mounts/Inner.antt =====
-- The path inside of a mount.
use yunxia.Prelude.{List, [], ◌∷◌, ◌++◌, Text, txt, trim_prefix-append, ◌≡◌, refl, ap, ◌∙◌, arith}
use yunxia.Vfs.Clean.{slashed, absolute}
use yunxia.Vfs.Clean.Segments.{AllSegments, slashed-append}
use yunxia.Vfs.Path.Names.{has_prefix-segment}
use yunxia.Vfs.Mounts.{inner_of}

inner_of-root : (rs : List Text) → AllSegments rs → inner_of (absolute rs) (txt "/") ≡ absolute rs
unfolding inner_of
inner_of-root [] h = refl
inner_of-root ([] ∷ rs) h = absurd (h.0.0 refl)
inner_of-root ((c ∷ p) ∷ rs) h = ground (arith, has_prefix-segment (c ∷ p) h.0.3 h.0.0)

inner_of-slashed : (s : Text) (rs : List Text) → inner_of (s ++ slashed rs) s ≡ absolute rs
unfolding inner_of
inner_of-slashed s [] = rw (trim_prefix-append s [])
inner_of-slashed s (r ∷ rs) = rw (trim_prefix-append s (slashed (r ∷ rs)))

-- What is left of a path behind the segments of its mount.
pub inner_of-absolute :
    (ps rs : List Text)
    → AllSegments rs
    → inner_of (absolute (ps ++ rs)) (absolute ps) ≡ absolute rs
inner_of-absolute [] rs h = inner_of-root rs h
inner_of-absolute (p ∷ ps) rs h =
    ap (λ t. inner_of t (slashed (p ∷ ps))) (slashed-append (p ∷ ps) rs)
    ∙ inner_of-slashed (slashed (p ∷ ps)) rs
