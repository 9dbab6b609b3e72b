-- ===== src/Vfs/Path/Merging.antt =====
-- Putting a mount's path and a path inside of it together.
use yunxia.Prelude.{List, [], ◌∷◌, ◌++◌, Text, txt, ◌≡◌, sym, ap, ◌∙◌, ok, str_eq, if◌then◌else◌}
use mathlib.Core.List.{append-nil}
use yunxia.Vfs.Clean.{absolute}
use yunxia.Vfs.Clean.Segments.{
  AllSegments, segments, segments-absolute, slashed-append, AllSegments-append,
}
use yunxia.Vfs.Path.Normal.{
  normalize_virtual_path-IsNormal, AllSegments-IsNormal, absolute-segments,
}
use yunxia.Vfs.Path.Names.{str_eq-root}
use yunxia.Vfs.Path.{normalize_virtual_path, merge_mount_and_inner_path}

abbrev merged : Text → Text → Text
merged m i = if str_eq i (txt "/") then m else if str_eq m (txt "/") then i else m ++ i

merged-absolute :
    (ps qs : List Text)
    → AllSegments ps
    → AllSegments qs
    → merged (absolute ps) (absolute qs) ≡ absolute (ps ++ qs)
merged-absolute ps [] hp hq = ap absolute (sym (append-nil ps))
merged-absolute [] (q ∷ qs) hp hq = rw (str_eq-root q qs hq.0)
merged-absolute (p ∷ ps) (q ∷ qs) hp hq =
    rw (str_eq-root q qs hq.0, str_eq-root p ps hp.0) (sym (slashed-append (p ∷ ps) (q ∷ qs)))

-- The merged path of a mount and an inner path that both normalize has the mount's segments and
-- then the inner path's.
pub merge_mount_and_inner_path-segments :
    (mount inner : Text) {m i : Text}
    → normalize_virtual_path mount ≡ ok m
    → normalize_virtual_path inner ≡ ok i
    → (merge_mount_and_inner_path mount inner ≡ absolute (segments m ++ segments i))
      × (segments (merge_mount_and_inner_path mount inner) ≡ segments m ++ segments i)
unfolding merge_mount_and_inner_path
merge_mount_and_inner_path-segments mount inner {m} {i} em ei =
    let nm = normalize_virtual_path-IsNormal mount em in
    let ni = normalize_virtual_path-IsNormal inner ei in
    let hm = AllSegments-IsNormal nm in
    let hi = AllSegments-IsNormal ni in
    let whole : merged m i ≡ absolute (segments m ++ segments i) =
      sym (λ k. merged (absolute-segments nm k) (absolute-segments ni k))
      ∙ merged-absolute (segments m) (segments i) hm hi in
    rw (em, ei)
      (
        whole,
        ap segments whole
            ∙ segments-absolute (segments m ++ segments i)
                (AllSegments-append (segments m) (segments i) hm hi),
      )
