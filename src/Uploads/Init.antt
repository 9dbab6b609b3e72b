-- ===== src/Uploads/Init.antt =====
-- The start of an upload into a local source: `initLocal` of
-- backend/internal/application/service/upload_service.go, with `FindActiveByIdentity` and `Create` of
-- upload_session_repo_impl.go.
use yunxia.Prelude.{
  ℕ, ◌+◌, ◌-◌, ◌*◌, ◌/◌, List, [], ◌∷◌, ◌++◌, Bool, true, false, ◌&&◌, ◌||◌, any, keep, Text, txt,
  str_eq, ltb, ◌==◌, if◌then◌else◌, Option, none, some, Result, ok, err, Error, not_found, conflict,
  upload_too_large, file_already_exists,
}
use yunxia.Vfs.Path.{merge_mount_and_inner_path}
use yunxia.Vfs.Mounts.{StorageSource}
use yunxia.Local.{path_join, resolve_physical_path}
use yunxia.Uploads.{UploadSession, StoredFile, World, Faults, or_fault}
use yunxia.Uploads.Commit.{Environment, UploadedFile, CommitRequest, or_else_text, after_commit}
use yunxia.Uploads.Finish.{local_item}

-- `SystemOptions`, as far as it is read here.
pub record Options : Type 0 where
  pub max_upload_size : ℕ
  pub default_chunk_size : ℕ

-- `resolvedUploadInitTarget`
pub record Target : Type 0 where
  pub source : StorageSource
  pub path : Text
  pub target_virtual_parent_path : Text
  pub resolved_inner_parent_path : Text

-- `dto.UploadInitRequest`; the size is positive.
pub record UploadInitRequest : Type 0 where
  pub source_id : ℕ
  pub filename : Text
  pub file_size : ℕ
  pub file_hash : Text

-- `dto.UploadInitResponse`: the file is there already, or its chunks are awaited.
pub data UploadInitResponse : Type 0 where
  fast_upload : UploadedFile → ℕ → UploadInitResponse
  awaited : UploadSession → UploadInitResponse

unfoldable pub is_active_for : ℕ → ℕ → Text → UploadInitRequest → UploadSession → Bool
is_active_for now user_id path req s =
    s.user_id == user_id
    && s.source_id == req.source_id
    && str_eq s.path path
    && str_eq s.filename req.filename
    && s.file_size == req.file_size
    && str_eq s.file_hash req.file_hash
    && (str_eq s.status (txt "pending") || str_eq s.status (txt "uploading"))
    && ltb now s.expires_at

-- The one that was updated last.
unfoldable pub latest : List UploadSession → Result UploadSession
latest [] = err not_found
latest (s ∷ ss) = elim (latest ss) [
  | err e ↦ ok s
  | ok t ↦ ok (if ltb s.updated_at t.updated_at then t else s)
]

-- `FindActiveByIdentity`
unfoldable pub find_active_by_identity :
    Faults → ℕ → ℕ → Text → UploadInitRequest → List UploadSession → Result UploadSession
unfolding latest is_active_for
find_active_by_identity f now user_id path req ss =
    or_fault f.find_active (latest (keep (is_active_for now user_id path req) ss))

-- `Create`; the identifier is the key.
unfoldable pub create_session :
    Faults → UploadSession → List UploadSession → Result (List UploadSession)
create_session f new ss =
    or_fault f.save
      (if any (λ s. str_eq s.upload_id new.upload_id) ss then err conflict else ok (ss ++ new ∷ []))

-- The number of chunks.
unfoldable pub total_chunks_of : ℕ → ℕ → ℕ
total_chunks_of file_size chunk_size =
    let n = (file_size + chunk_size - 1) / chunk_size in if n == 0 then 1 else n

abbrev seven_days : ℕ
seven_days = 7 * 24 * 60 * 60

unfoldable pub new_session : Options → Text → ℕ → ℕ → Target → UploadInitRequest → UploadSession
unfolding total_chunks_of
new_session o upload_id now user_id target req = record {
  upload_id = upload_id;
  user_id = user_id;
  source_id = req.source_id;
  path = target.path;
  target_virtual_parent_path = target.target_virtual_parent_path;
  resolved_inner_parent_path = target.resolved_inner_parent_path;
  filename = req.filename;
  file_size = req.file_size;
  file_hash = req.file_hash;
  chunk_size = o.default_chunk_size;
  total_chunks = total_chunks_of req.file_size o.default_chunk_size;
  uploaded_chunks = [];
  storage_data_json = [];
  status = txt "uploading";
  expires_at = now + seven_days;
  updated_at = now;
}

-- The request of `commitUploadInitMetadataFile`
unfoldable pub init_commit_request : ℕ → Target → UploadInitRequest → UploadedFile → CommitRequest
init_commit_request user_id target req item = record {
  source = target.source;
  virtual_parent_path =
      or_else_text target.target_virtual_parent_path
        (merge_mount_and_inner_path target.source.mount_path item.parent_path);
  resolved_inner_parent_path = or_else_text target.resolved_inner_parent_path item.parent_path;
  filename = or_else_text item.name req.filename;
  object_path = item.path;
  size = item.size;
  checksum = req.file_hash;
  actor_id = user_id;
}

unfoldable pub finish_fast : UploadedFile → World × Result ℕ → World × Result UploadInitResponse
finish_fast item (w, err e) = (w, err e)
finish_fast item (w, ok node_id) = (w, ok (fast_upload item node_id))

-- `commitUploadInitMetadataFile`
unfoldable pub commit_upload_init_metadata_file :
    Environment → ℕ → Target → UploadInitRequest → UploadedFile → World → World × Result ℕ
unfolding after_commit init_commit_request
commit_upload_init_metadata_file e user_id target req item w = elim e.committer [
  | none ↦ (w, ok 0)
  | some commit ↦ let r = init_commit_request user_id target req item in after_commit r w (commit r)
]

-- The content of a file.
unfoldable pub content_of : Text → List StoredFile → Option Text
content_of path [] = none
content_of path (s ∷ ss) =
    let rest = content_of path ss in if str_eq s.path path then some s.content else rest

-- A file stands at the target: it is the one, or another.
unfoldable pub init_over :
    Environment
    → Faults
    → ℕ
    → Target
    → UploadInitRequest
    → Text
    → Text
    → Text
    → World
    → World × Result UploadInitResponse
unfolding finish_fast commit_upload_init_metadata_file local_item
init_over e f user_id target req virtual_path physical there w =
    if str_eq (e.md5 there) req.file_hash && none_of f.hash
    then (let item = local_item virtual_path physical there in
        finish_fast item (commit_upload_init_metadata_file e user_id target req item w))
    else (w, err file_already_exists)
  where
    none_of : Option Error → Bool
    none_of none = true
    none_of (some x) = false

unfoldable pub open_session : Faults → UploadSession → World → World × Result UploadInitResponse
unfolding create_session
open_session f session w = elim (create_session f session w.sessions) [
  | err x ↦ (w, err x)
  | ok ss ↦ (record w { sessions = ss }, or_fault f.make_dir (ok (awaited session)))
]

-- An active session for the same file is taken up, or a new one is opened.
unfoldable pub init_session :
    Faults → UploadSession → World → Result UploadSession → World × Result UploadInitResponse
unfolding open_session
init_session f fresh w (ok session) = (w, ok (awaited session))
init_session f fresh w (err not_found) = open_session f fresh w
init_session f fresh w (err x) = (w, err x)

unfoldable pub init_at :
    Environment
    → Faults
    → Options
    → Text
    → ℕ
    → ℕ
    → Target
    → UploadInitRequest
    → Text
    → World
    → Result (Text × Text)
    → World × Result UploadInitResponse
unfolding init_over init_session find_active_by_identity new_session content_of
init_at e f o upload_id now user_id target req virtual_path w (err x) = (w, err x)
init_at e f o upload_id now user_id target req virtual_path w (ok (root, physical)) =
    elim (if f.unseen then none else content_of physical w.files) [
      | some there ↦ init_over e f user_id target req virtual_path physical there w
      | none ↦
          init_session f (new_session o upload_id now user_id target req) w
            (find_active_by_identity f now user_id target.path req w.sessions)
    ]

unfoldable pub init_virtual : Target → UploadInitRequest → Text
unfolding path_join
init_virtual target req =
    if str_eq target.path (txt "/")
    then txt "/" ++ req.filename
    else path_join target.path req.filename

-- `initLocal`, with the identifier that is drawn and the time
unfoldable pub init_local :
    Environment
    → Faults
    → Options
    → Text
    → ℕ
    → ℕ
    → Target
    → UploadInitRequest
    → World
    → World × Result UploadInitResponse
unfolding init_at init_virtual
init_local e f o upload_id now user_id target req w =
    if ltb o.max_upload_size req.file_size
    then (w, err upload_too_large)
    else init_at e f o upload_id now user_id target req (init_virtual target req) w
        (resolve_physical_path e.decode_config target.source (init_virtual target req))
