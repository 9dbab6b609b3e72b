-- ===== src/Uploads/Commit.antt =====
-- The record of a finished upload in the metadata (`commitUploadSessionMetadataFile` of
-- backend/internal/application/service/upload_service.go), and what the service is made with. The
-- drivers, MD5, the decoding of JSON and the committer of the metadata are parameters.
use yunxia.Prelude.{
  ℕ, List, [], ◌∷◌, ◌++◌, Bool, Text, is_empty, trim_space, if◌then◌else◌, Option, none, some,
  Result, ok, err, metadata_vfs_commit_failed,
}
use yunxia.Vfs.Path.{join_virtual_path, merge_mount_and_inner_path}
use yunxia.Vfs.Mounts.{StorageSource}
use yunxia.Uploads.{UploadSession, World}

-- What the server knows of a finished file (`dto.FileItem`).
pub record UploadedFile : Type 0 where
  pub name : Text
  pub path : Text
  pub parent_path : Text
  pub size : ℕ

-- `MetadataVFSFileObjectCommitRequest`, as far as the committer gets it from an upload.
pub record CommitRequest : Type 0 where
  pub source : StorageSource
  pub virtual_parent_path : Text
  pub resolved_inner_parent_path : Text
  pub filename : Text
  pub object_path : Text
  pub size : ℕ
  pub checksum : Text
  pub actor_id : ℕ

-- `dto.UploadPartETag`
pub record UploadPart : Type 0 where
  pub index : ℕ
  pub etag : Text

-- What the service is made with: the decoding of a local source's configuration, MD5, the committer
-- (the key of the node it returns, if any), the two kinds of drivers by their types, with the errors
-- that the service makes of theirs, and the decoding of what a session keeps for its driver.
pub record Environment : Type 0 where
  pub decode_config : Text → Result Text
  pub md5 : Text → Text
  pub committer : Option (CommitRequest → Result (Option ℕ))
  pub find_source : ℕ → Result StorageSource
  pub import_driver : Text → Option (StorageSource → Text → Text → Result (Unit {0}))
  pub upload_driver : Text → Option (StorageSource → Text → List UploadPart → Result UploadedFile)
  pub is_import_state : Text → Bool
  pub is_multipart_state : Text → Bool

pub record UploadFinishResponse : Type 0 where
  pub upload_id : Text
  pub result_vfs_node_id : ℕ
  pub file : UploadedFile

abbrev pub or_else_text : Text → Text → Text
or_else_text s d = if is_empty s then d else s

-- The request of `commitUploadSessionMetadataFile`
unfoldable pub commit_request : StorageSource → UploadSession → UploadedFile → CommitRequest
commit_request source session item = record {
  source = source;
  virtual_parent_path =
      or_else_text (trim_space session.target_virtual_parent_path)
        (merge_mount_and_inner_path source.mount_path item.parent_path);
  resolved_inner_parent_path =
      or_else_text (trim_space session.resolved_inner_parent_path) item.parent_path;
  filename = or_else_text item.name session.filename;
  object_path = item.path;
  size = item.size;
  checksum = session.file_hash;
  actor_id = session.user_id;
}

-- Its failure is recorded for the journal.
unfoldable pub record_commit_failure : CommitRequest → World → World
record_commit_failure req w = record w {
  failures =
      w.failures
      ++ record {
        source_path_snapshot = req.object_path;
        target_path_snapshot = join_virtual_path req.virtual_parent_path req.filename;
        source_id_snapshot = req.source.id;
        created_by = req.actor_id;
      }
        ∷ [];
}

unfoldable pub after_commit : CommitRequest → World → Result (Option ℕ) → World × Result ℕ
unfolding record_commit_failure
after_commit req w (err e) = (record_commit_failure req w, err metadata_vfs_commit_failed)
after_commit req w (ok none) = (record_commit_failure req w, err metadata_vfs_commit_failed)
after_commit req w (ok (some node_id)) = (w, ok node_id)

-- `commitUploadSessionMetadataFile`
unfoldable pub commit_upload_session_metadata_file :
    Environment → StorageSource → UploadSession → UploadedFile → World → World × Result ℕ
unfolding after_commit commit_request
commit_upload_session_metadata_file e source session item w = elim e.committer [
  | none ↦ (w, ok 0)
  | some commit ↦ let req = commit_request source session item in after_commit req w (commit req)
]
