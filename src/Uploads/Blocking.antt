-- ===== src/Uploads/Blocking.antt =====
-- A target that was once made stands in the way of its own upload (`finishLocal` of
-- backend/internal/application/service/upload_service.go).
use yunxia.Prelude.{
  ◌≤◌, [], List, Bool, Option, Error, true, false, not, ◌&&◌, length, Text, Result, str_eq_refl,
  ltb, none, some, ok, err, file_already_exists, ◌≡◌, refl, ap, ◌∙◌, arith,
}
use yunxia.Vfs.Mounts.{StorageSource}
use yunxia.Local.{resolve_physical_path}
use yunxia.Uploads.{UploadSession, StoredFile, World, Faults}
use yunxia.Uploads.Commit.{Environment, UploadFinishResponse}
use yunxia.Uploads.Finish.{
  has_file, put_file, target_virtual, write_target, or_stop, place_target, finish_local,
  copy_chunks,
}
use yunxia.Uploads.Merging.{after_write-files}

has_file-put_file :
    (path content : Text) (files : List StoredFile)
    → has_file path (put_file path content files) ≡ true
unfolding has_file put_file
has_file-put_file path content files = rw (str_eq_refl path) refl

or_stop-none :
    (o : Option Error) (w : World) (next : World × Result UploadFinishResponse)
    → o ≡ none
    → or_stop o w next ≡ next
or_stop-none none w next h = refl
or_stop-none (some x) w next h = absurd (cc)

absent_fresh : (b c : Bool) → c ≡ false → (not b && c) ≡ false
absent_fresh b c h = ground arith

seen_there : (b c : Bool) → b ≡ false → c ≡ true → (not b && c) ≡ true
seen_there b c h k = ground arith

module _ (e : Environment) (f : Faults) (source : StorageSource) (session : UploadSession)
    (w : World) (root physical : Text) where
  written_there : has_file physical ((write_target e f source session physical w).0.files) ≡ true
  unfolding write_target
  written_there =
      let out = (copy_chunks f session.upload_id w.chunks session.total_chunks 0 []).0 in
      ap (has_file physical) (
        after_write-files e f source session physical out
          (record w { files = put_file physical out w.files }) _)
      ∙ has_file-put_file physical out w.files

  enough_chunks :
      session.total_chunks ≤ length session.uploaded_chunks
      → ltb (length session.uploaded_chunks) session.total_chunks ≡ false
  enough_chunks h = ground arith

  pub made :
      session.total_chunks ≤ length session.uploaded_chunks
      → resolve_physical_path e.decode_config source (target_virtual session) ≡ ok (root, physical)
      → has_file physical w.files ≡ false
      → finish_local e f source session w
        ≡ or_stop f.make_dir w
            (or_stop f.create_file w (write_target e f source session physical w))
  unfolding finish_local
  made enough placed absent =
      rw
        (
          finish_local,
          enough_chunks enough,
          placed,
          place_target,
          absent_fresh f.unseen (has_file physical w.files) absent,
        )
        refl

  blocked :
      (f' : Faults) (u : World)
      → session.total_chunks ≤ length session.uploaded_chunks
      → resolve_physical_path e.decode_config source (target_virtual session) ≡ ok (root, physical)
      → f'.unseen ≡ false
      → has_file physical u.files ≡ true
      → finish_local e f' source session u ≡ (u, err file_already_exists)
  unfolding finish_local
  blocked f' u enough placed seen there =
      rw
        (
          finish_local,
          enough_chunks enough,
          placed,
          place_target,
          seen_there f'.unseen (has_file physical u.files) seen there,
        )
        refl

  -- Once a finish of a session whose chunks were all counted has made its target, which resolves and
  -- was free, and whether the finish then ends well or not, each further finish that looks there finds
  -- a file and changes nothing: an upload whose content is refused for its hash cannot be finished.
  pub finish_local_blocks :
      (f' : Faults)
      → session.total_chunks ≤ length session.uploaded_chunks
      → resolve_physical_path e.decode_config source (target_virtual session) ≡ ok (root, physical)
      → has_file physical w.files ≡ false
      → f.make_dir ≡ none
      → f.create_file ≡ none
      → f'.unseen ≡ false
      → finish_local e f' source session ((finish_local e f source session w).0)
        ≡ ((finish_local e f source session w).0, err file_already_exists)
  finish_local_blocks f' enough placed absent dir created seen =
      let written =
        made enough placed absent
        ∙ or_stop-none f.make_dir w _ dir
        ∙ or_stop-none f.create_file w _ created in
      let there = ap (λ r. has_file physical (r.0.files)) written ∙ written_there in
      blocked f' _ enough placed seen there
