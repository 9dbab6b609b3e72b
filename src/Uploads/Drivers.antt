-- ===== src/Uploads/Drivers.antt =====
-- The end of an upload into any source: `Finish` of
-- backend/internal/application/service/upload_service.go, for sources whose driver takes a file (from
-- chunks) or its parts. Audit events are left out. The staged file of an import lies in the session's
-- directory and is read only by the driver, so it is no part of the state.
use yunxia.Prelude.{
  List, [], Bool, not, ◌&&◌, length, Text, txt, str_eq, is_empty, ltb, if◌then◌else◌, Option, none,
  some, Result, ok, err, upload_finish_incomplete, upload_invalid_state,
  source_operation_unsupported, source_driver_unsupported, ◌>>=◌, ◌>>◌, refuse_if,
}
use yunxia.Permission.{RequestAuth}
use yunxia.Acl.Authorizer.{Authorizer}
use yunxia.Vfs.Path.{join_virtual_path}
use yunxia.Vfs.Mounts.{StorageSource}
use yunxia.Uploads.{
  UploadSession, World, Faults, or_fault, find_session, session_missing, authorize_upload_session,
}
use yunxia.Uploads.Commit.{
  UploadedFile, UploadPart, Environment, UploadFinishResponse, commit_upload_session_metadata_file,
}
use yunxia.Uploads.Finish.{
  copy_chunks, clean_up, drop_session, finish_commit, written_check, parent_of, finish_local,
}

abbrev pub staged_item : UploadSession → UploadedFile
staged_item session = record {
  name = session.filename;
  path = join_virtual_path session.path session.filename;
  parent_path = parent_of (join_virtual_path session.path session.filename);
  size = session.file_size;
}

-- What the driver says to the staged file.
unfoldable pub import_check :
    Environment → Faults → StorageSource → UploadSession → World → Result (Unit {0})
unfolding written_check copy_chunks
import_check e f source session w = elim (e.import_driver source.driver_type) [
  | none ↦ err source_operation_unsupported
  | some driver ↦ or_fault f.create_file (
      let (out, copied) = copy_chunks f session.upload_id w.chunks session.total_chunks 0 [] in
      written_check e f session out copied
      >> driver source (join_virtual_path session.path session.filename) out)
]

unfoldable pub after_import :
    Environment
    → Faults
    → StorageSource
    → UploadSession
    → World
    → Result (Unit {0})
    → World × Result UploadFinishResponse
unfolding finish_commit clean_up commit_upload_session_metadata_file
after_import e f source session w (err x) = (w, err x)
after_import e f source session w (ok tt) =
    finish_commit (clean_up f session) session (staged_item session)
      (commit_upload_session_metadata_file e source session (staged_item session) w)

-- `finishWithImportDriver`
unfoldable pub finish_with_import_driver :
    Environment
    → Faults
    → StorageSource
    → UploadSession
    → World
    → World × Result UploadFinishResponse
unfolding after_import import_check
finish_with_import_driver e f source session w =
    if ltb (length session.uploaded_chunks) session.total_chunks
    then (w, err upload_finish_incomplete)
    else after_import e f source session w (import_check e f source session w)

unfoldable pub after_upload :
    Environment
    → Faults
    → StorageSource
    → UploadSession
    → World
    → Result UploadedFile
    → World × Result UploadFinishResponse
unfolding finish_commit drop_session commit_upload_session_metadata_file
after_upload e f source session w (err x) = (w, err x)
after_upload e f source session w (ok item) =
    finish_commit (drop_session f session) session item
      (commit_upload_session_metadata_file e source session item w)

-- What the driver says to the parts.
unfoldable pub multipart_check :
    Environment → StorageSource → UploadSession → List UploadPart → Result UploadedFile
multipart_check e source session parts = elim (e.upload_driver source.driver_type) [
  | none ↦ err source_driver_unsupported
  | some driver ↦
      refuse_if (not (e.is_multipart_state session.storage_data_json)) upload_invalid_state
      >> driver source session.storage_data_json parts
]

-- `finishWithUploadDriver`
unfoldable pub finish_with_upload_driver :
    Environment
    → Faults
    → StorageSource
    → UploadSession
    → List UploadPart
    → World
    → World × Result UploadFinishResponse
unfolding after_upload multipart_check
finish_with_upload_driver e f source session parts w =
    if ltb (length parts) session.total_chunks
    then (w, err upload_finish_incomplete)
    else after_upload e f source session w (multipart_check e source session parts)

-- `isUploadImportSession`
unfoldable pub is_upload_import_session : Environment → UploadSession → Bool
is_upload_import_session e session =
    not (is_empty session.storage_data_json) && e.is_import_state session.storage_data_json

-- The checks of `Finish`.
unfoldable pub finish_check :
    Option Authorizer
    → Option RequestAuth
    → Environment
    → Faults
    → Text
    → World
    → Result (UploadSession × StorageSource)
unfolding find_session session_missing authorize_upload_session
finish_check a auth e f upload_id w = do
  session ← session_missing (find_session f upload_id w.sessions)
  authorize_upload_session a auth session
  source ← e.find_source session.source_id
  ok (session, source)

unfoldable pub finish_by_driver :
    Environment
    → Faults
    → List UploadPart
    → World
    → Result (UploadSession × StorageSource)
    → World × Result UploadFinishResponse
unfolding finish_local finish_with_import_driver finish_with_upload_driver is_upload_import_session
finish_by_driver e f parts w (err x) = (w, err x)
finish_by_driver e f parts w (ok (session, source)) =
    if str_eq source.driver_type (txt "local")
    then finish_local e f source session w
    else if is_upload_import_session e session
    then finish_with_import_driver e f source session w
    else finish_with_upload_driver e f source session parts w

-- `Finish`
unfoldable pub finish :
    Option Authorizer
    → Option RequestAuth
    → Environment
    → Faults
    → Text
    → List UploadPart
    → World
    → World × Result UploadFinishResponse
unfolding finish_by_driver finish_check
finish a auth e f upload_id parts w =
    finish_by_driver e f parts w (finish_check a auth e f upload_id w)
