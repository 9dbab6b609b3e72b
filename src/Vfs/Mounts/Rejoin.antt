-- ===== src/Vfs/Mounts/Rejoin.antt =====
-- The matched mount and the inner path give the resolved path back.
use yunxia.Prelude.{
  List, [], ◌∷◌, ◌++◌, false, Text, txt, contains, ok, ◌≡◌, refl, sym, ap, ◌∙◌, arith,
}
use yunxia.Vfs.Clean.{slashed, absolute}
use yunxia.Vfs.Clean.Segments.{AllSegments, segments, segments-absolute, slashed-append}
use yunxia.Vfs.Path.{normalize_virtual_path, merge_mount_and_inner_path}
use yunxia.Vfs.Path.Normal.{
  IsNormal, normalize_virtual_path_normal, AllSegments-IsNormal, absolute-segments,
}
use yunxia.Vfs.Path.Parents.{absolute-IsNormal}
use yunxia.Vfs.Path.Ancestry.{Leads}
use yunxia.Vfs.Path.Merging.{merge_mount_and_inner_path-segments}
use yunxia.Vfs.Mounts.Inner.{inner_of-absolute}
use yunxia.Vfs.Mounts.{inner_of}

contains-suffix : (s r sub : Text) → contains (s ++ r) sub ≡ false → contains r sub ≡ false
contains-suffix [] r sub h = h
contains-suffix (c ∷ s) r sub h = ground (arith, contains-suffix s r sub)

undotted-rest :
    (ps rs : List Text)
    → contains (absolute (ps ++ rs)) (txt "..") ≡ false
    → contains (absolute rs) (txt "..") ≡ false
undotted-rest [] rs h = h
undotted-rest (p ∷ ps) [] h = refl
undotted-rest (p ∷ ps) (r ∷ rs) h =
    contains-suffix (slashed (p ∷ ps)) (slashed (r ∷ rs)) (txt "..")
      (sym (ap (λ t. contains t (txt "..")) (slashed-append (p ∷ ps) (r ∷ rs))) ∙ h)

AllSegments-rest : (ps rs : List Text) → AllSegments (ps ++ rs) → AllSegments rs
AllSegments-rest [] rs h = h
AllSegments-rest (p ∷ ps) rs (_, h) = AllSegments-rest ps rs h

-- The path inside of a mount above a path, put behind the mount's path, is the path.
pub rejoined :
    {path mount : Text}
    → IsNormal path
    → IsNormal mount
    → Leads (segments mount) (segments path)
    → merge_mount_and_inner_path mount (inner_of path mount) ≡ path
rejoined {path} {mount} np nm (rs, e) =
    (merge_mount_and_inner_path-segments mount (inner_of path mount)
      (normalize_virtual_path_normal nm) normal).0
    ∙ ap (λ t. absolute (segments mount ++ t)) (segments-absolute rs hr)
    ∙ sym whole
  where
    whole : path ≡ absolute (segments mount ++ rs)
    whole = sym (absolute-segments np) ∙ ap absolute e

    hr : AllSegments rs
    hr = AllSegments-rest (segments mount) rs (rw (← e) (AllSegments-IsNormal np))

    inner : inner_of path mount ≡ absolute rs
    inner =
        (λ i. inner_of (whole i) (sym (absolute-segments nm) i))
        ∙ inner_of-absolute (segments mount) rs hr

    normal : normalize_virtual_path (inner_of path mount) ≡ ok (absolute rs)
    normal =
        ap normalize_virtual_path inner
        ∙ normalize_virtual_path_normal
            (absolute-IsNormal rs hr (undotted-rest (segments mount) rs (rw whole at np.undotted)))
