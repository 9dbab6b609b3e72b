-- ===== src/Local/Confined.antt =====
-- A local path stays in the root of its source (`resolvePhysicalPath` in
-- backend/internal/application/service/local_storage_helpers.go).
use yunxia.Prelude.{
  List, [], ◌∷◌, ◌++◌, Text, txt, true, has_prefix, trim_prefix, ◌≡◌, refl, sym, ap, ◌∙◌, Result,
  ok, has_prefix-append,
}
use mathlib.Core.List.{append-nil, append_assoc}
use yunxia.Vfs.Clean.{absolute, slashed, clean}
use yunxia.Vfs.Clean.Segments.{AllSegments, segments, slashed-append, AllSegments-append}
use yunxia.Vfs.Clean.Laws.{
  clean_segments, clean_trailing, clean_doubled, clean_slashes, clean-absolute,
}
use yunxia.Vfs.Path.Normal.{
  IsNormal, normalize_virtual_path-IsNormal, AllSegments-IsNormal, absolute-segments,
}
use yunxia.Vfs.Path.{normalize_virtual_path}
use yunxia.Vfs.Mounts.{StorageSource}
use yunxia.Local.{
  path_join, parse_local_source_config, base_root_of, target_of, resolve_physical_path,
}

-- Segments joined behind a path, as the code does it: without the slash at the head.
joined :
    (ps qs : List Text)
    → AllSegments ps
    → AllSegments qs
    → path_join (absolute ps) (trim_prefix (absolute qs) (txt "/")) ≡ absolute (ps ++ qs)
unfolding path_join
joined [] [] hp hq = clean_slashes
joined (p ∷ ps) [] hp hq =
    ap clean (append-nil (slashed (p ∷ ps) ++ txt "/"))
    ∙ clean_trailing (p ∷ ps) hp
    ∙ ap absolute (sym (append-nil (p ∷ ps)))
joined [] (q ∷ qs) hp hq = clean_doubled (q ∷ qs) hq
joined (p ∷ ps) (q ∷ qs) hp hq =
    ap clean (append_assoc (slashed (p ∷ ps)) (txt "/") (q ++ slashed qs))
    ∙ ap clean (sym (slashed-append (p ∷ ps) (q ∷ qs)))
    ∙ clean_segments ((p ∷ ps) ++ q ∷ qs) (AllSegments-append (p ∷ ps) (q ∷ qs) hp hq)

has_prefix-absolute_append :
    (ps qs : List Text) → has_prefix (absolute (ps ++ qs)) (absolute ps) ≡ true
has_prefix-absolute_append [] [] = refl
has_prefix-absolute_append [] (q ∷ qs) = refl
has_prefix-absolute_append (p ∷ ps) qs =
    ap (λ t. has_prefix t (absolute (p ∷ ps))) (slashed-append (p ∷ ps) qs)
    ∙ has_prefix-append (slashed (p ∷ ps)) (slashed qs)

pub joined_normal :
    (ps : List Text) {q : Text}
    → AllSegments ps
    → IsNormal q
    → path_join (absolute ps) (trim_prefix q (txt "/")) ≡ absolute (ps ++ segments q)
joined_normal ps {q} hp n =
    ap (λ t. path_join (absolute ps) (trim_prefix t (txt "/"))) (sym (absolute-segments n))
    ∙ joined ps (segments q) hp (AllSegments-IsNormal n)

-- Where the base path of a source is absolute and its root normalizes, a path that normalizes lies, on
-- the disk, at the base path, then the segments of the root, then its own. So the test for a way out of
-- the root never refuses anything.
pub resolve_physical_path_confined :
    (decode : Text → Result Text) (source : StorageSource) (virtual_path : Text)
    {base_path root path : Text}
    → parse_local_source_config decode source ≡ ok base_path
    → has_prefix base_path (txt "/") ≡ true
    → normalize_virtual_path source.root_path ≡ ok root
    → normalize_virtual_path virtual_path ≡ ok path
    → (bs : List Text) × (clean base_path ≡ absolute bs)
      × (resolve_physical_path decode source virtual_path
          ≡ ok (absolute (bs ++ segments root), absolute ((bs ++ segments root) ++ segments path)))
unfolding resolve_physical_path
resolve_physical_path_confined decode source virtual_path {base_path} {root} {path} decoded rooted
      er ep =
    let (bs, c, hb) = clean-absolute base_path rooted in
    let nr = normalize_virtual_path-IsNormal source.root_path er in
    let np = normalize_virtual_path-IsNormal virtual_path ep in
    let hr = AllSegments-IsNormal nr in
    let hp = AllSegments-IsNormal np in
    let hbr = AllSegments-append bs (segments root) hb hr in
    let b : base_root_of base_path root ≡ absolute (bs ++ segments root) =
      ap (λ t. path_join t (trim_prefix root (txt "/"))) c ∙ joined_normal bs hb nr in
    let t : target_of (base_root_of base_path root) path
        ≡ absolute ((bs ++ segments root) ++ segments path) =
      ap (λ t. target_of t path) b ∙ joined_normal (bs ++ segments root) hbr np in
    let cb = ap clean b ∙ clean_segments (bs ++ segments root) hbr in
    let ct =
      ap clean t
      ∙ clean_segments ((bs ++ segments root) ++ segments path)
          (AllSegments-append (bs ++ segments root) (segments path) hbr hp) in
    (
      bs,
      c,
      rw (decoded, er, ep, cb, ct, has_prefix-absolute_append (bs ++ segments root) (segments path))
          refl,
    )
