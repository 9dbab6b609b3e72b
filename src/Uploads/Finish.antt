-- ===== src/Uploads/Finish.antt =====
-- The end of an upload into a local source: `finishLocal` of
-- backend/internal/application/service/upload_service.go puts the chunk files together.
use yunxia.Prelude.{
  ℕ, ◌+◌, zero, suc, List, [], ◌∷◌, ◌++◌, Bool, not, ◌&&◌, any, keep, length, Text, txt, str_eq,
  is_empty, ltb, if◌then◌else◌, Option, none, some, Result, ok, err, Error,
  upload_finish_incomplete, upload_hash_mismatch, file_already_exists, ok_or, ◌>>◌, refuse_if,
}
use yunxia.Vfs.Path.{dir, base}
use yunxia.Vfs.Mounts.{StorageSource}
use yunxia.Local.{path_join, resolve_physical_path}
use yunxia.Uploads.{
  UploadSession, ChunkFile, StoredFile, World, Faults, or_fault, read_chunk, readable,
  remove_temp_dir, delete_session,
}
use yunxia.Uploads.Commit.{
  UploadedFile, Environment, UploadFinishResponse, commit_upload_session_metadata_file,
}

-- The loop over the chunk files: what was written, and how it ended.
unfoldable pub copy_chunks :
    Faults → Text → List ChunkFile → ℕ → ℕ → Text → Text × Result (Unit {0})
unfolding read_chunk
copy_chunks f id cs zero i out = (out, ok tt)
copy_chunks f id cs (suc n) i out = elim (readable f i (read_chunk id i cs)) [
  | none ↦ (out, err upload_finish_incomplete)
  | some bytes ↦ elim (f.copy i) [
    | some (e, part) ↦ (out ++ part, err e)
    | none ↦ copy_chunks f id cs n (i + 1) (out ++ bytes)
  ]
]

unfoldable pub has_file : Text → List StoredFile → Bool
has_file path files = any (λ s. str_eq s.path path) files

unfoldable pub put_file : Text → Text → List StoredFile → List StoredFile
put_file path bytes files =
    record { path = path; content = bytes } ∷ keep (λ s. not (str_eq s.path path)) files

unfoldable pub target_virtual : UploadSession → Text
unfolding path_join
target_virtual session =
    if str_eq session.path (txt "/")
    then txt "/" ++ session.filename
    else path_join session.path session.filename

-- The directory of the session and the session go; what fails there is passed over.
unfoldable pub clean_up : Faults → UploadSession → World → World
unfolding remove_temp_dir delete_session
clean_up f session w = record w {
  chunks = remove_temp_dir f session.upload_id w.chunks;
  sessions = ok_or w.sessions (delete_session f session.upload_id w.sessions);
}

-- The same after a multipart upload, which has no directory.
unfoldable pub drop_session : Faults → UploadSession → World → World
unfolding delete_session
drop_session f session w = record w {
  sessions = ok_or w.sessions (delete_session f session.upload_id w.sessions);
}

unfoldable pub finish_commit :
    (World → World)
    → UploadSession
    → UploadedFile
    → World × Result ℕ
    → World × Result UploadFinishResponse
finish_commit tidy session item (w, err e) = (w, err e)
finish_commit tidy session item (w, ok node_id) = (
  tidy w,
  ok (record { upload_id = session.upload_id; result_vfs_node_id = node_id; file = item }),
)

-- The checks of what was written: closing it, hashing it, and its length.
unfoldable pub written_check :
    Environment → Faults → UploadSession → Text → Result (Unit {0}) → Result (Unit {0})
written_check e f session out copied = do
  copied
  or_fault f.close (ok tt)
  or_fault f.hash (ok tt)
  refuse_if (not (is_empty session.file_hash) && not (str_eq (e.md5 out) session.file_hash))
      upload_hash_mismatch

-- The parent that `buildFileItem` and `buildStorageEntryItem` name.
abbrev pub parent_of : Text → Text
parent_of path = if str_eq (dir path) (txt ".") then txt "/" else dir path

-- `buildFileItem` of the target
unfoldable pub local_item : Text → Text → Text → UploadedFile
unfolding base
local_item virtual_path physical out = record {
  name = base physical;
  path = virtual_path;
  parent_path = parent_of virtual_path;
  size = length out;
}

unfoldable pub after_write :
    Environment
    → Faults
    → StorageSource
    → UploadSession
    → Text
    → Text
    → World
    → Result (Unit {0})
    → World × Result UploadFinishResponse
unfolding finish_commit clean_up commit_upload_session_metadata_file local_item target_virtual
after_write e f source session physical out w (err x) = (w, err x)
after_write e f source session physical out w (ok tt) =
    let item = local_item (target_virtual session) physical out in
    finish_commit (clean_up f session) session item
      (commit_upload_session_metadata_file e source session item w)

-- The target is made and written, then checked: a target that fails the checks stays.
unfoldable pub write_target :
    Environment
    → Faults
    → StorageSource
    → UploadSession
    → Text
    → World
    → World × Result UploadFinishResponse
unfolding after_write written_check copy_chunks put_file
write_target e f source session physical w =
    let (out, copied) = copy_chunks f session.upload_id w.chunks session.total_chunks 0 [] in
    after_write e f source session physical out (record w { files = put_file physical out w.files })
      (written_check e f session out copied >> or_fault f.stat (ok tt))

-- `if err != nil { return nil, err }`
abbrev pub or_stop :
    Option Error → World → World × Result UploadFinishResponse → World × Result UploadFinishResponse
or_stop none w next = next
or_stop (some x) w next = (w, err x)

unfoldable pub place_target :
    Environment
    → Faults
    → StorageSource
    → UploadSession
    → World
    → Result (Text × Text)
    → World × Result UploadFinishResponse
unfolding write_target has_file
place_target e f source session w (err x) = (w, err x)
place_target e f source session w (ok (root, physical)) =
    if not f.unseen && has_file physical w.files
    then (w, err file_already_exists)
    else or_stop f.make_dir w (or_stop f.create_file w (write_target e f source session physical w))

-- `finishLocal`
unfoldable pub finish_local :
    Environment
    → Faults
    → StorageSource
    → UploadSession
    → World
    → World × Result UploadFinishResponse
unfolding place_target target_virtual
finish_local e f source session w =
    if ltb (length session.uploaded_chunks) session.total_chunks
    then (w, err upload_finish_incomplete)
    else place_target e f source session w
        (resolve_physical_path e.decode_config source (target_virtual session))
