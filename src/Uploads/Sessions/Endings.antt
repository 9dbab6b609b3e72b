-- ===== src/Uploads/Sessions/Endings.antt =====
-- A property of every session, through the end of an upload
-- (backend/internal/application/service/upload_service.go).
use yunxia.Prelude.{
  ℕ, List, not, ◌&&◌, All, Text, txt, str_eq, ltb, length, Option, none, some, Result, ok, err,
  Error, ◌≡◌, refl, sym, inl, inr, Bool-cases, Option-cases,
}
use mathlib.Core.Path.{subst}
use yunxia.Permission.{RequestAuth}
use yunxia.Acl.Authorizer.{Authorizer}
use yunxia.Vfs.Mounts.{StorageSource}
use yunxia.Uploads.{UploadSession, World, Faults, delete_session}
use yunxia.Uploads.Commit.{
  Environment, CommitRequest, UploadPart, UploadedFile, UploadFinishResponse, commit_request,
  record_commit_failure, after_commit, commit_upload_session_metadata_file,
}
use yunxia.Uploads.Finish.{
  clean_up, drop_session, finish_commit, after_write, write_target, place_target, finish_local,
  has_file, or_stop, local_item, target_virtual,
}
use yunxia.Uploads.Drivers.{
  after_import, finish_with_import_driver, after_upload, finish_with_upload_driver,
  finish_by_driver, finish_check, finish, is_upload_import_session, staged_item,
}
use yunxia.Uploads.Init.{
  Target, UploadInitRequest, commit_upload_init_metadata_file, init_commit_request,
}
use yunxia.Uploads.Sessions.{delete_session-All, ok_or-All}

module _ (P : UploadSession → Type 0) where
  pub after_commit-sessions :
      (req : CommitRequest) (w : World) (r : Result (Option ℕ))
      → (after_commit req w r).0.sessions ≡ w.sessions
  unfolding after_commit record_commit_failure
  after_commit-sessions req w (err e) = refl
  after_commit-sessions req w (ok none) = refl
  after_commit-sessions req w (ok (some node_id)) = refl

  commit-sessions :
      (e : Environment) (source : StorageSource) (session : UploadSession) (item : UploadedFile)
      (w : World)
      → (commit_upload_session_metadata_file e source session item w).0.sessions ≡ w.sessions
  unfolding commit_upload_session_metadata_file
  commit-sessions e source session item w = elim (Option-cases e.committer) [
    | inl x ↦ rw (commit_upload_session_metadata_file, x) refl
    | inr (commit, x) ↦
        rw (commit_upload_session_metadata_file, x)
          (after_commit-sessions (commit_request source session item) w _)
  ]

  pub commit_init-sessions :
      (e : Environment) (user_id : ℕ) (target : Target) (req : UploadInitRequest)
      (item : UploadedFile) (w : World)
      → (commit_upload_init_metadata_file e user_id target req item w).0.sessions ≡ w.sessions
  unfolding commit_upload_init_metadata_file
  commit_init-sessions e user_id target req item w = elim (Option-cases e.committer) [
    | inl x ↦ rw (commit_upload_init_metadata_file, x) refl
    | inr (commit, x) ↦
        rw (commit_upload_init_metadata_file, x)
          (after_commit-sessions (init_commit_request user_id target req item) w _)
  ]

  drop_session-All :
      (f : Faults) (session : UploadSession) (w : World)
      → All P w.sessions
      → All P ((drop_session f session w).sessions)
  unfolding drop_session
  drop_session-All f session w h =
      ok_or-All P w.sessions (delete_session f session.upload_id w.sessions) h
        (λ us e. delete_session-All P f session.upload_id w.sessions h e)

  clean_up-All :
      (f : Faults) (session : UploadSession) (w : World)
      → All P w.sessions
      → All P ((clean_up f session w).sessions)
  unfolding clean_up
  clean_up-All f session w h =
      ok_or-All P w.sessions (delete_session f session.upload_id w.sessions) h
        (λ us e. delete_session-All P f session.upload_id w.sessions h e)

  finish_commit-All :
      (tidy : World → World) (session : UploadSession) (item : UploadedFile) (r : World × Result ℕ)
      → ((w : World) → All P w.sessions → All P ((tidy w).sessions))
      → All P (r.0.sessions)
      → All P ((finish_commit tidy session item r).0.sessions)
  unfolding finish_commit
  finish_commit-All tidy session item (w, err e) t h = h
  finish_commit-All tidy session item (w, ok node_id) t h = t w h

  commit-All :
      (e : Environment) (source : StorageSource) (session : UploadSession) (item : UploadedFile)
      (w : World)
      → All P w.sessions
      → All P ((commit_upload_session_metadata_file e source session item w).0.sessions)
  commit-All e source session item w h =
      subst (All P) (sym (commit-sessions e source session item w)) h

  tidied-All :
      (e : Environment) (f : Faults) (source : StorageSource) (session : UploadSession)
      (item : UploadedFile) (w : World)
      → All P w.sessions
      → All P (
          (finish_commit
            (clean_up f session)
            session
            item
            (commit_upload_session_metadata_file e source session item w)).0.sessions)
  tidied-All e f source session item w h =
      finish_commit-All (clean_up f session) session item
        (commit_upload_session_metadata_file e source session item w) (clean_up-All f session)
        (commit-All e source session item w h)

  after_write-All :
      (e : Environment) (f : Faults) (source : StorageSource) (session : UploadSession)
      (physical out : Text) (w : World) (r : Result (Unit {0}))
      → All P w.sessions
      → All P ((after_write e f source session physical out w r).0.sessions)
  unfolding after_write
  after_write-All e f source session physical out w (err x) h = h
  after_write-All e f source session physical out w (ok done) h =
      tidied-All e f source session (local_item (target_virtual session) physical out) w h

  write_target-All :
      (e : Environment) (f : Faults) (source : StorageSource) (session : UploadSession)
      (physical : Text) (w : World)
      → All P w.sessions
      → All P ((write_target e f source session physical w).0.sessions)
  unfolding write_target
  write_target-All e f source session physical w h =
      after_write-All e f source session physical _ _ _ h

  or_stop-All :
      (o : Option Error) (w : World) (r : World × Result UploadFinishResponse)
      → All P w.sessions
      → All P (r.0.sessions)
      → All P ((or_stop o w r).0.sessions)
  or_stop-All none w r h k = k
  or_stop-All (some x) w r h k = h

  place_target-All :
      (e : Environment) (f : Faults) (source : StorageSource) (session : UploadSession) (w : World)
      (r : Result (Text × Text))
      → All P w.sessions
      → All P ((place_target e f source session w r).0.sessions)
  unfolding place_target
  place_target-All e f source session w (err x) h = h
  place_target-All e f source session w (ok (root, physical)) h =
      elim (Bool-cases (not f.unseen && has_file physical w.files)) [
        | inl x ↦ rw (place_target, x) h
        | inr x ↦
            rw (place_target, x)
              (or_stop-All f.make_dir w _ h (
                or_stop-All f.create_file w _ h (write_target-All e f source session physical w h)))
      ]

  finish_local-All :
      (e : Environment) (f : Faults) (source : StorageSource) (session : UploadSession) (w : World)
      → All P w.sessions
      → All P ((finish_local e f source session w).0.sessions)
  unfolding finish_local
  finish_local-All e f source session w h =
      elim (Bool-cases (ltb (length session.uploaded_chunks) session.total_chunks)) [
        | inl x ↦ rw x h
        | inr x ↦ rw x (place_target-All e f source session w _ h)
      ]

  after_import-All :
      (e : Environment) (f : Faults) (source : StorageSource) (session : UploadSession) (w : World)
      (r : Result (Unit {0}))
      → All P w.sessions
      → All P ((after_import e f source session w r).0.sessions)
  unfolding after_import
  after_import-All e f source session w (err x) h = h
  after_import-All e f source session w (ok done) h =
      tidied-All e f source session (staged_item session) w h

  finish_with_import_driver-All :
      (e : Environment) (f : Faults) (source : StorageSource) (session : UploadSession) (w : World)
      → All P w.sessions
      → All P ((finish_with_import_driver e f source session w).0.sessions)
  unfolding finish_with_import_driver
  finish_with_import_driver-All e f source session w h =
      elim (Bool-cases (ltb (length session.uploaded_chunks) session.total_chunks)) [
        | inl x ↦ rw x h
        | inr x ↦ rw x (after_import-All e f source session w _ h)
      ]

  after_upload-All :
      (e : Environment) (f : Faults) (source : StorageSource) (session : UploadSession) (w : World)
      (r : Result UploadedFile)
      → All P w.sessions
      → All P ((after_upload e f source session w r).0.sessions)
  unfolding after_upload
  after_upload-All e f source session w (err x) h = h
  after_upload-All e f source session w (ok item) h =
      finish_commit-All (drop_session f session) session item
        (commit_upload_session_metadata_file e source session item w) (drop_session-All f session)
        (commit-All e source session item w h)

  finish_with_upload_driver-All :
      (e : Environment) (f : Faults) (source : StorageSource) (session : UploadSession)
      (parts : List UploadPart) (w : World)
      → All P w.sessions
      → All P ((finish_with_upload_driver e f source session parts w).0.sessions)
  unfolding finish_with_upload_driver
  finish_with_upload_driver-All e f source session parts w h =
      elim (Bool-cases (ltb (length parts) session.total_chunks)) [
        | inl x ↦ rw x h
        | inr x ↦ rw x (after_upload-All e f source session w _ h)
      ]

  finish_by_driver-All :
      (e : Environment) (f : Faults) (parts : List UploadPart) (w : World)
      (r : Result (UploadSession × StorageSource))
      → All P w.sessions
      → All P ((finish_by_driver e f parts w r).0.sessions)
  unfolding finish_by_driver
  finish_by_driver-All e f parts w (err x) h = h
  finish_by_driver-All e f parts w (ok (session, source)) h =
      elim (Bool-cases (str_eq source.driver_type (txt "local"))) [
        | inl x ↦ rw (finish_by_driver, x) (finish_local-All e f source session w h)
        | inr x ↦ elim (Bool-cases (is_upload_import_session e session)) [
          | inl y ↦
              rw (finish_by_driver, x, y) (finish_with_import_driver-All e f source session w h)
          | inr y ↦
              rw (finish_by_driver, x, y)
                (finish_with_upload_driver-All e f source session parts w h)
        ]
      ]

  pub finish-All :
      (a : Option Authorizer) (auth : Option RequestAuth) (e : Environment) (f : Faults) (id : Text)
      (parts : List UploadPart) (w : World)
      → All P w.sessions
      → All P ((finish a auth e f id parts w).0.sessions)
  unfolding finish
  finish-All a auth e f id parts w h =
      finish_by_driver-All e f parts w (finish_check a auth e f id w) h
