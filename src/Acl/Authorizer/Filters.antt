-- ===== src/Acl/Authorizer/Filters.antt =====
-- What the filters leave in a listing.
use mathlib.Core.List.{filter_map}
use yunxia.Prelude.{
  List, [], ◌∷◌, Bool, true, false, ◌&&◌, txt, str_eq, if◌then◌else◌, Option, none, some, Result,
  ok, err, ok_injective, ◌≡◌, ◌↔◌, refl, sym, ap, ◌∙◌, All, inl, inr, Result-cases,
}
use yunxia.Acl.{read_action, delete_action}
use yunxia.Acl.Evaluator.{Evaluator, allow_virtual_path_with_node_id}
use yunxia.Acl.Authorizer.{VfsItem, filter_vfs_loop}

abbrev readable : Evaluator → VfsItem → Result Bool
readable e i = allow_virtual_path_with_node_id e i.path i.id read_action

abbrev deletable : Evaluator → VfsItem → Result Bool
deletable e i = allow_virtual_path_with_node_id e i.path i.id delete_action

-- The action was judged, and allowed.
abbrev pub is_yes : Result Bool → Bool
is_yes (ok b) = b
is_yes (err e) = false

-- The action was judged.
abbrev pub IsAnswered : Result Bool → Type 0
IsAnswered r = (b : Bool) × (r ≡ ok b)

-- It was judged whether the item may be read and, if it may, whether it may be deleted.
abbrev pub IsItemJudged : Evaluator → VfsItem → Type 0
IsItemJudged e i = IsAnswered (readable e i) × (readable e i ≡ ok true → IsAnswered (deletable e i))

-- What is shown of an item: nothing if it may not be read. Otherwise the item, deletion being
-- offered only if the item offers it and the rules allow it, and a download only if the item offers
-- it and is a file.
abbrev pub shown : Evaluator → VfsItem → Option VfsItem
shown e i =
    if is_yes (readable e i)
    then some (record i {
      can_delete = i.can_delete && is_yes (deletable e i);
      can_download = i.can_download && str_eq i.entry_kind (txt "file");
    })
    else none

filter_vfs_loop-judged :
    (e : Evaluator) (items : List VfsItem) {kept : List VfsItem}
    → filter_vfs_loop e items ≡ ok kept
    → All (IsItemJudged e) items
unfolding filter_vfs_loop
filter_vfs_loop-judged e [] h = tt
filter_vfs_loop-judged e (i ∷ is) h = elim (Result-cases (readable e i)) [
  | inr (x, bad) ↦ absurd (cc (rw bad at h))
  | inl (false, refused) ↦ (
    ((false, refused), λ yes. absurd (cc (refused, yes))),
    filter_vfs_loop-judged e is (rw refused at h),
  )
  | inl (true, read) ↦ elim (Result-cases (deletable e i)) [
    | inr (x, bad) ↦ absurd (cc (rw (read, bad) at h))
    | inl (d, del) ↦ elim (Result-cases (filter_vfs_loop e is)) [
      | inr (x, bad) ↦ absurd (cc (rw (read, del, bad) at h))
      | inl (rest, f) ↦ (((true, read), λ yes. (d, del)), filter_vfs_loop-judged e is f)
    ]
  ]
]

filter_vfs_loop-shown :
    (e : Evaluator) (items : List VfsItem)
    → All (IsItemJudged e) items
    → filter_vfs_loop e items ≡ ok (filter_map (shown e) items)
unfolding filter_vfs_loop filter_map
filter_vfs_loop-shown e [] h = refl
filter_vfs_loop-shown e (i ∷ is) (((false, refused), _), h) =
    rw (refused, filter_vfs_loop-shown e is h) refl
filter_vfs_loop-shown e (i ∷ is) (((true, read), judged), h) =
    let (d, del) = judged read in rw (read, del, filter_vfs_loop-shown e is h) refl

-- The filter ends with a listing exactly if it was judged of each item whether it may be read, and
-- of each that may be read whether it may be deleted; the listing is then, in the order of the items,
-- what is shown of each: nothing of an item that may not be read, and of any other the item with its
-- own permissions, deletion cut down to where the rules allow it and the download to files.
pub filter_vfs_loop_exact :
    (e : Evaluator) (items kept : List VfsItem)
    → (filter_vfs_loop e items ≡ ok kept)
      ↔ (All (IsItemJudged e) items × (kept ≡ filter_map (shown e) items))
filter_vfs_loop_exact e items kept = (
  (λ h.
      let judged = filter_vfs_loop-judged e items h in
      (judged, ok_injective (sym h ∙ filter_vfs_loop-shown e items judged))),
  λ (judged, same). filter_vfs_loop-shown e items judged ∙ ap ok (sym same),
)
