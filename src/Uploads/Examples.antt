-- ===== src/Uploads/Examples.antt =====
-- An upload of two chunks, and each theorem on uploads at an input.
use yunxia.Prelude.{
  ℕ, ◌≡◌, ◌<◌, refl, List, [], ◌∷◌, ◌==◌, ◌||◌, ◌&&◌, true, false, not, Text, txt, str_eq,
  trim_space, if◌then◌else◌, pos, none, some, ok, err, not_found, file_already_exists,
  upload_hash_mismatch, upload_chunk_conflict, other, arith,
}
use yunxia.Permission.{RequestAuth, role_user, status_active}
use yunxia.Vfs.Clean.{split_slash, clean}
use yunxia.Vfs.Path.{
  normalize_virtual_path, dir, base, join_virtual_path, merge_mount_and_inner_path,
}
use yunxia.Vfs.Mounts.{StorageSource}
use yunxia.Local.{path_join, parse_local_source_config, resolve_physical_path}
use yunxia.Uploads.{
  UploadSession, World, Faults, first_session, find_session, update_session, delete_session,
  authorize_upload_path, authorize_upload_session, session_missing, read_chunk, put_chunk,
  remove_temp_dir, insert, sort, has_index, with_chunk, chunk_index, chunk_check, register,
  write_chunk, store_chunk, upload_chunk,
}
use yunxia.Uploads.Commit.{
  Environment, UploadFinishResponse, commit_request, after_commit,
  commit_upload_session_metadata_file,
}
use yunxia.Uploads.Finish.{
  copy_chunks, has_file, put_file, target_virtual, clean_up, finish_commit, written_check,
  local_item, after_write, write_target, place_target, finish_local,
}
use yunxia.Uploads.Drivers.{finish_by_driver, finish_check, finish}
use yunxia.Uploads.Init.{content_of}
use yunxia.Uploads.Chunks.{IsUpload, upload_chunk-IsUpload}
use yunxia.Uploads.Runs.{AllWell, IsWell, Reaches-AllWell, here, then_step, uploads, finishes}
use yunxia.Uploads.Merging.{IsWhole, finish_local-IsWhole}
use yunxia.Uploads.Blocking.{finish_local_blocks}
use yunxia.Uploads.Faultless.{no_faults, assembled}
use yunxia.Uploads.Whole.{IsUnderway, send, send_all}
use yunxia.Uploads.Delivery.{Commits, upload_delivers}

program : Unit {0}
unfolding trim_space split_slash clean normalize_virtual_path dir base join_virtual_path
    merge_mount_and_inner_path path_join parse_local_source_config resolve_physical_path
    first_session find_session update_session delete_session authorize_upload_path
    authorize_upload_session session_missing read_chunk put_chunk remove_temp_dir insert sort
    with_chunk chunk_index chunk_check register write_chunk store_chunk upload_chunk commit_request
    after_commit commit_upload_session_metadata_file copy_chunks has_file put_file target_virtual
    clean_up finish_commit written_check local_item after_write write_target place_target
    finish_local finish_by_driver finish_check finish content_of send send_all assembled
program = tt

abbrev source : StorageSource
source = record {
  id = 1;
  name = txt "disk";
  driver_type = txt "local";
  status = txt "online";
  is_enabled = true;
  is_webdav_exposed = true;
  webdav_read_only = true;
  webdav_slug = txt "disk";
  mount_path = txt "/disk";
  root_path = txt "/";
  sort_order = 0;
  config_json = txt "/srv";
}

abbrev environment : Environment
environment = record {
  decode_config = λ json. ok json;
  md5 = λ content. content;
  committer = none;
  find_source = λ id. ok source;
  import_driver = λ kind. none;
  upload_driver = λ kind. none;
  is_import_state = λ json. false;
  is_multipart_state = λ json. false;
}

abbrev session : UploadSession
session = record {
  upload_id = txt "u";
  user_id = 2;
  source_id = 1;
  path = txt "/d";
  target_virtual_parent_path = [];
  resolved_inner_parent_path = [];
  filename = txt "f";
  file_size = 3;
  file_hash = txt "abc";
  chunk_size = 2;
  total_chunks = 2;
  uploaded_chunks = [];
  storage_data_json = [];
  status = txt "uploading";
  expires_at = 100;
  updated_at = 0;
}

abbrev world : World
world = record { sessions = session ∷ []; chunks = []; files = []; failures = [] }

abbrev ann_auth : RequestAuth
ann_auth = record {
  user_id = 2;
  username = txt "ann";
  role_key = role_user;
  status = status_active;
  capabilities = [];
}

abbrev part : ℕ → Text
part k = if k == 0 then txt "ab" else txt "c"

abbrev order : List ℕ
order = 1 ∷ 0 ∷ 1 ∷ []

-- Both chunks are there.
abbrev complete : World
complete = send_all none (some ann_auth) session part 5 order world

-- The session then.
abbrev whole_session : UploadSession
whole_session = record session { uploaded_chunks = 0 ∷ 1 ∷ []; updated_at = 5 }

sent : first_session (txt "u") complete.sessions ≡ ok whole_session
unfolding program
sent = refl

conflicting :
    (upload_chunk none (some ann_auth) no_faults 6 (txt "u") (pos 1) (txt "d") complete).1
    ≡ err upload_chunk_conflict
unfolding program
conflicting = refl

-- A chunk file that was written and not registered is acknowledged, and never counted.
abbrev no_save : Faults
no_save = record no_faults { save = some (other 1) }

abbrev half : World
half = (upload_chunk none (some ann_auth) no_save 6 (txt "u") (pos 0) (txt "ab") world).0

acknowledged_uncounted :
    (first_session (txt "u") (
        (upload_chunk none
          (some ann_auth)
          no_faults
          7
          (txt "u")
          (pos 0)
          (txt "ab")
          half).0.sessions)
      ≡ ok session)
    × ((upload_chunk none (some ann_auth) no_faults 7 (txt "u") (pos 0) (txt "ab") half).1
        ≡ ok (record {
          upload_id = txt "u";
          index = 0;
          received_bytes = 2;
          already_uploaded = true;
        }))
unfolding program
acknowledged_uncounted = (refl, refl)

upload_chunk-IsUpload_example :
    IsUpload none
      (some ann_auth)
      no_faults
      5
      (txt "u")
      (pos 0)
      (txt "ab")
      world
      ((upload_chunk none (some ann_auth) no_faults 5 (txt "u") (pos 0) (txt "ab") world).0)
      ((upload_chunk none (some ann_auth) no_faults 5 (txt "u") (pos 0) (txt "ab") world).1)
upload_chunk-IsUpload_example =
    upload_chunk-IsUpload none (some ann_auth) no_faults 5 (txt "u") (pos 0) (txt "ab") world

world-AllWell : AllWell world
unfolding AllWell IsWell
world-AllWell = ((tt, omega arith), tt)

abbrev one_sent : World
one_sent = (upload_chunk none (some ann_auth) no_faults 5 (txt "u") (pos 1) (txt "c") world).0

Reaches-AllWell_example :
    AllWell ((finish none (some ann_auth) environment no_faults (txt "u") [] one_sent).0)
Reaches-AllWell_example =
    Reaches-AllWell world
      ((finish none (some ann_auth) environment no_faults (txt "u") [] one_sent).0) world-AllWell
      (then_step
        (then_step here (uploads none (some ann_auth) no_faults 5 (txt "u") (pos 1) (txt "c")))
        (finishes none (some ann_auth) environment no_faults (txt "u") []))

abbrev response : UploadFinishResponse
response = record {
  upload_id = txt "u";
  result_vfs_node_id = 0;
  file = record { name = txt "f"; path = txt "/d/f"; parent_path = txt "/d"; size = 3 };
}

ends_well : (finish_local environment no_faults source whole_session complete).1 ≡ ok response
unfolding program
ends_well = refl

finish_local-IsWhole_example :
    IsWhole environment no_faults source whole_session complete
      ((finish_local environment no_faults source whole_session complete).0)
finish_local-IsWhole_example =
    finish_local-IsWhole environment no_faults source whole_session complete ends_well

-- The client gave another hash.
abbrev mistaken : UploadSession
mistaken = record whole_session { file_hash = txt "x" }

refused : (finish_local environment no_faults source mistaken complete).1 ≡ err upload_hash_mismatch
unfolding program
refused = refl

placed :
    resolve_physical_path environment.decode_config source (target_virtual session)
    ≡ ok (txt "/srv", txt "/srv/d/f")
unfolding program
placed = refl

placed_mistaken :
    resolve_physical_path environment.decode_config source (target_virtual mistaken)
    ≡ ok (txt "/srv", txt "/srv/d/f")
unfolding program
placed_mistaken = refl

free : has_file (txt "/srv/d/f") complete.files ≡ false
unfolding program
free = refl

finish_local_blocks_example :
    finish_local environment no_faults source mistaken
      ((finish_local environment no_faults source mistaken complete).0)
    ≡ ((finish_local environment no_faults source mistaken complete).0, err file_already_exists)
finish_local_blocks_example =
    finish_local_blocks environment no_faults source mistaken complete (txt "/srv") (txt "/srv/d/f")
      no_faults (omega arith) placed_mistaken free refl refl refl

begun : IsUnderway none (some ann_auth) session part 5 [] [] world
unfolding program
begun = record { updated = 0; found = refl; rising = tt; chunks = λ k. refl; kept = refl }

allowed : authorize_upload_session none (some ann_auth) session ≡ ok tt
unfolding program
allowed = refl

free_at_first : has_file (txt "/srv/d/f") world.files ≡ false
unfolding program
free_at_first = refl

commits : Commits environment
unfolding Commits commit_upload_session_metadata_file
commits _ _ _ w = (0, refl)

covers : (k : ℕ) → k < 2 → (has_index k [] || has_index k order) ≡ true
covers k h = ground arith

hashed : (not false && not (str_eq (assembled part 0 2) (txt "abc"))) ≡ false
unfolding program
hashed = refl

upload_delivers_example :
    (p : UploadFinishResponse) × ((finish none
        (some ann_auth)
        environment
        no_faults
        (txt "u")
        []
        complete).1
      ≡ ok p)
    × (content_of
          (txt "/srv/d/f")
          ((finish none (some ann_auth) environment no_faults (txt "u") [] complete).0.files)
        ≡ some (assembled part 0 2))
    × (first_session
          (txt "u")
          ((finish none (some ann_auth) environment no_faults (txt "u") [] complete).0.sessions)
        ≡ err not_found)
upload_delivers_example =
    upload_delivers none (some ann_auth) environment source session part 5 (txt "/srv")
      (txt "/srv/d/f") [] order world begun allowed (omega arith, (omega arith, (omega arith, tt)))
      covers refl refl placed free_at_first hashed commits
