-- ===== src/Uploads.antt =====
-- Uploads in chunks (`UploadService` in backend/internal/application/service/upload_service.go, and
-- upload_session_repo_impl.go in backend/internal/infrastructure/persistence/gorm): the sessions, the
-- chunk files in the temporary directory, `UploadChunk` and `Cancel`. Calls come one after another.
pub mod Commit
pub mod Finish
pub mod Drivers
pub mod Init
mod Increasing
pub mod Chunks
mod Sessions
pub mod Runs
pub mod Merging
pub mod Blocking
mod Faultless
pub mod Whole
pub mod Delivery
mod Examples
use yunxia.Prelude.{
  ℕ, List, [], ◌∷◌, ◌++◌, map, Bool, true, false, not, ◌&&◌, ◌||◌, any, keep, length, Text, txt,
  str_eq, ◌==◌, ltb, leb, if◌then◌else◌, ℤ, pos, negsuc, Option, none, some, Result, ok, err, Error,
  not_found, permission_denied, upload_session_not_found, upload_invalid_state,
  upload_chunk_conflict, ◌>>=◌, ◌>>◌, refuse_if,
}
use yunxia.Permission.{RequestAuth}
use yunxia.Acl.{write_action}
use yunxia.Acl.Authorizer.{Authorizer, authorize_path}

-- `entity.UploadSession`; the keys of the target's nodes and the time of creation are left out. Times
-- are in seconds. The sizes and the number of chunks, `int64` and `int` in Go, are not bounded here.
pub record UploadSession : Type 0 where
  pub upload_id : Text
  pub user_id : ℕ
  pub source_id : ℕ
  pub path : Text
  pub target_virtual_parent_path : Text
  pub resolved_inner_parent_path : Text
  pub filename : Text
  pub file_size : ℕ
  pub file_hash : Text
  pub chunk_size : ℕ
  pub total_chunks : ℕ
  pub uploaded_chunks : List ℕ
  pub storage_data_json : Text
  pub status : Text
  pub expires_at : ℕ
  pub updated_at : ℕ

-- The file of one chunk in the directory of its session, `<upload id>/chunk-<index>.part`.
pub record ChunkFile : Type 0 where
  pub upload_id : Text
  pub index : ℕ
  pub content : Text

-- A file of a local source.
pub record StoredFile : Type 0 where
  pub path : Text
  pub content : Text

-- What `recordUploadMetadataCommitFailure` hands to the journal.
pub record CommitFailure : Type 0 where
  pub source_path_snapshot : Text
  pub target_path_snapshot : Text
  pub source_id_snapshot : ℕ
  pub created_by : ℕ

-- Directories are left out.
pub record World : Type 0 where
  pub sessions : List UploadSession
  pub chunks : List ChunkFile
  pub files : List StoredFile
  pub failures : List CommitFailure

-- What goes wrong in the database and on the disk during a call. A write that fails leaves a file
-- with what it wrote, or no file; a directory that is not wholly removed leaves some chunk files.
pub record Faults : Type 0 where
  pub find : Option Error
  pub find_active : Option Error
  pub save : Option Error
  pub delete : Option Error
  pub make_dir : Option Error
  pub unreadable : ℕ → Bool
  pub write_chunk : Option (Error × Option Text)
  pub survives : ChunkFile → Bool
  pub unseen : Bool
  pub create_file : Option Error
  pub copy : ℕ → Option (Error × Text)
  pub close : Option Error
  pub hash : Option Error
  pub stat : Option Error

abbrev pub or_fault {ℓ} : {A : Type ℓ} → Option Error → Result A → Result A
or_fault none r = r
or_fault (some e) r = err e

pub first_session : Text → List UploadSession → Result UploadSession
first_session id [] = err not_found
first_session id (s ∷ ss) =
    let rest = first_session id ss in if str_eq s.upload_id id then ok s else rest

-- `FindByID`
pub find_session : Faults → Text → List UploadSession → Result UploadSession
find_session f id ss = or_fault f.find (first_session id ss)

abbrev pub put_session : UploadSession → UploadSession → UploadSession
put_session new s = if str_eq s.upload_id new.upload_id then new else s

-- `Update`
pub update_session : Faults → UploadSession → List UploadSession → Result (List UploadSession)
update_session f new ss = or_fault f.save (
    if any (λ s. str_eq s.upload_id new.upload_id) ss
    then ok (map (put_session new) ss)
    else err not_found)

-- `Delete`
pub delete_session : Faults → Text → List UploadSession → Result (List UploadSession)
delete_session f id ss = or_fault f.delete (
    if any (λ s. str_eq s.upload_id id) ss
    then ok (keep (λ s. not (str_eq s.upload_id id)) ss)
    else err not_found)

-- `authorizePath`
pub authorize_upload_path : Option Authorizer → Option RequestAuth → ℕ → Text → Result (Unit {0})
authorize_upload_path none auth source_id path = ok tt
authorize_upload_path (some a) auth source_id path =
    authorize_path a auth source_id path write_action

-- `authorizeUploadSession`
pub authorize_upload_session :
    Option Authorizer → Option RequestAuth → UploadSession → Result (Unit {0})
unfolding authorize_upload_path
authorize_upload_session a none session = err permission_denied
authorize_upload_session a (some auth) session =
    refuse_if (not (auth.user_id == session.user_id)) permission_denied
    >> authorize_upload_path a (some auth) session.source_id session.path

pub session_missing : Result UploadSession → Result UploadSession
session_missing (err not_found) = err upload_session_not_found
session_missing r = r

-- The file of a chunk; none if there is none.
pub read_chunk : Text → ℕ → List ChunkFile → Option Text
read_chunk id i [] = none
read_chunk id i (c ∷ cs) =
    let rest = read_chunk id i cs in
    if str_eq c.upload_id id && c.index == i then some c.content else rest

-- Writing the file of a chunk, over the one that is there.
pub put_chunk : Text → ℕ → Text → List ChunkFile → List ChunkFile
put_chunk id i content cs =
    record { upload_id = id; index = i; content = content }
    ∷ keep (λ c. not (str_eq c.upload_id id && c.index == i)) cs

-- `os.RemoveAll` of the directory of a session
pub remove_temp_dir : Faults → Text → List ChunkFile → List ChunkFile
remove_temp_dir f id cs = keep (λ c. not (str_eq c.upload_id id) || f.survives c) cs

pub insert : ℕ → List ℕ → List ℕ
insert i [] = i ∷ []
insert i (j ∷ js) = let rest = insert i js in if leb i j then i ∷ j ∷ js else j ∷ rest

-- `slices.Sort`
pub sort : List ℕ → List ℕ
unfolding insert
sort [] = []
sort (i ∷ is) = insert i (sort is)

-- `slices.Contains`
abbrev pub has_index : ℕ → List ℕ → Bool
has_index i is = any (λ j. j == i) is

pub with_chunk : ℕ → List ℕ → List ℕ
unfolding sort
with_chunk i is = if has_index i is then is else sort (is ++ i ∷ [])

pub record UploadChunkResponse : Type 0 where
  pub upload_id : Text
  pub index : ℕ
  pub received_bytes : ℕ
  pub already_uploaded : Bool

abbrev pub chunk_response : Text → ℕ → Text → Bool → UploadChunkResponse
chunk_response id i content already = record {
  upload_id = id;
  index = i;
  received_bytes = length content;
  already_uploaded = already;
}

-- The index of a request that is in the range of the session.
pub chunk_index : ℤ → ℕ → Result ℕ
chunk_index (pos i) total = if ltb i total then ok i else err upload_invalid_state
chunk_index (negsuc i) total = err upload_invalid_state

-- The checks of `UploadChunk`.
pub chunk_check :
    Option Authorizer → Option RequestAuth → Faults → Text → ℤ → World → Result (UploadSession × ℕ)
unfolding find_session session_missing authorize_upload_session chunk_index
chunk_check a auth f upload_id index w = do
  session ← session_missing (find_session f upload_id w.sessions)
  authorize_upload_session a auth session
  i ← chunk_index index session.total_chunks
  ok (session, i)

-- The end of `UploadChunk`: the session learns of the chunk.
pub register :
    Faults → ℕ → Text → UploadSession → ℕ → Text → World → World × Result UploadChunkResponse
unfolding update_session with_chunk
register f now upload_id session i content w =
    elim (update_session f
      (record session { uploaded_chunks = with_chunk i session.uploaded_chunks; updated_at = now })
      w.sessions) [
        | err e ↦ (w, err e)
        | ok ss ↦ (record w { sessions = ss }, ok (chunk_response upload_id i content false))
      ]

abbrev pub leave_chunk : Text → ℕ → Option Text → World → World
leave_chunk id i none w = w
leave_chunk id i (some left) w = record w { chunks = put_chunk id i left w.chunks }

pub write_chunk :
    Faults → ℕ → Text → UploadSession → ℕ → Text → World → World × Result UploadChunkResponse
unfolding register put_chunk
write_chunk f now upload_id session i content w = elim f.make_dir [
  | some e ↦ (w, err e)
  | none ↦ elim f.write_chunk [
    | some (e, left) ↦ (leave_chunk upload_id i left w, err e)
    | none ↦
        register f now upload_id session i content
          (record w { chunks = put_chunk upload_id i content w.chunks })
  ]
]

abbrev pub readable : Faults → ℕ → Option Text → Option Text
readable f i o = if f.unreadable i then none else o

-- A chunk that is there already is compared and not written.
pub store_chunk :
    Faults
    → ℕ
    → Text
    → Text
    → World
    → Result (UploadSession × ℕ)
    → World × Result UploadChunkResponse
unfolding write_chunk read_chunk
store_chunk f now upload_id content w (err e) = (w, err e)
store_chunk f now upload_id content w (ok (session, i)) =
    elim (readable f i (read_chunk upload_id i w.chunks)) [
      | some existing ↦ (
        w,
        if str_eq existing content
            then ok (chunk_response upload_id i content true)
            else err upload_chunk_conflict,
      )
      | none ↦ write_chunk f now upload_id session i content w
    ]

-- `UploadChunk`, at a time
pub upload_chunk :
    Option Authorizer
    → Option RequestAuth
    → Faults
    → ℕ
    → Text
    → ℤ
    → Text
    → World
    → World × Result UploadChunkResponse
unfolding store_chunk chunk_check
upload_chunk a auth f now upload_id index content w =
    store_chunk f now upload_id content w (chunk_check a auth f upload_id index w)

-- The checks and the deletion of `Cancel`.
pub cancel_check :
    Option Authorizer → Option RequestAuth → Faults → Text → World → Result (List UploadSession)
unfolding find_session session_missing authorize_upload_session delete_session
cancel_check a auth f upload_id w = do
  session ← session_missing (find_session f upload_id w.sessions)
  authorize_upload_session a auth session
  refuse_if (str_eq session.status (txt "completed")) upload_invalid_state
  delete_session f upload_id w.sessions

pub finish_cancel : Faults → Text → World → Result (List UploadSession) → World × Result (Unit {0})
unfolding remove_temp_dir
finish_cancel f upload_id w (err e) = (w, err e)
finish_cancel f upload_id w (ok ss) =
    (record w { sessions = ss; chunks = remove_temp_dir f upload_id w.chunks }, ok tt)

-- `Cancel`
pub cancel :
    Option Authorizer → Option RequestAuth → Faults → Text → World → World × Result (Unit {0})
unfolding cancel_check finish_cancel
cancel a auth f upload_id w = finish_cancel f upload_id w (cancel_check a auth f upload_id w)
