-- ===== src/Uploads/Sessions.antt =====
-- A property of every session, through the queries on the sessions
-- (backend/internal/infrastructure/persistence/gorm/upload_session_repo_impl.go).
pub mod Endings
pub mod Starts
use yunxia.Prelude.{
  ℕ, List, [], ◌∷◌, map, Bool, true, false, not, ◌&&◌, any, keep, All, All-concat, Text, txt,
  str_eq, ltb, length, if◌then◌else◌, Option, none, some, Result, ok, err, Error, not_found, ok_or,
  ok_injective, >>=-eq-ok, upload_invalid_state, refuse_if, ◌≡◌, refl, sym, inl, inr, Bool-cases,
  Result-cases, Option-cases,
}
use mathlib.Core.Path.{subst}
use yunxia.Permission.{RequestAuth}
use yunxia.Acl.Authorizer.{Authorizer}
use yunxia.Vfs.Mounts.{StorageSource}
use yunxia.Uploads.{
  UploadSession, World, Faults, or_fault, first_session, find_session, put_session, update_session,
  delete_session, cancel_check, finish_cancel, cancel, session_missing, authorize_upload_session,
}
use yunxia.Uploads.Commit.{
  Environment, CommitRequest, UploadPart, UploadedFile, UploadFinishResponse, commit_request,
  record_commit_failure, after_commit, commit_upload_session_metadata_file,
}
use yunxia.Uploads.Finish.{
  clean_up, drop_session, finish_commit, after_write, write_target, place_target, finish_local,
  has_file, or_stop, local_item, target_virtual,
}
use yunxia.Uploads.Drivers.{
  after_import, finish_with_import_driver, after_upload, finish_with_upload_driver,
  finish_by_driver, finish_check, finish, is_upload_import_session, staged_item,
}
use yunxia.Uploads.Init.{
  Options, Target, UploadInitRequest, UploadInitResponse, create_session, new_session,
  commit_upload_init_metadata_file, init_commit_request, finish_fast, init_over, open_session,
  init_session, init_at, init_local, content_of,
}

module _ (P : UploadSession → Type 0) where
  pub first_session-All :
      (id : Text) (ss : List UploadSession) {s : UploadSession}
      → All P ss
      → first_session id ss ≡ ok s
      → P s
  unfolding first_session
  first_session-All id [] h found = absurd (cc)
  first_session-All id (t ∷ ts) (p, ps) found = elim (Bool-cases (str_eq t.upload_id id)) [
    | inl x ↦ subst P (ok_injective (rw x at found)) p
    | inr x ↦ first_session-All id ts ps (rw x at found)
  ]

  pub or_fault-ok {ℓ} :
      {A : Type ℓ} (o : Option Error) (r : Result A) {x : A} → or_fault o r ≡ ok x → r ≡ ok x
  or_fault-ok none r h = h
  or_fault-ok (some e) r h = absurd (cc)

  pub find_session-All :
      (f : Faults) (id : Text) (ss : List UploadSession) {s : UploadSession}
      → All P ss
      → find_session f id ss ≡ ok s
      → P s
  unfolding find_session
  find_session-All f id ss h found = first_session-All id ss h (or_fault-ok f.find _ found)

  All-map-put :
      (new : UploadSession) (ss : List UploadSession)
      → P new
      → All P ss
      → All P (map (put_session new) ss)
  All-map-put new [] n h = tt
  All-map-put new (s ∷ ss) n (p, ps) = elim (Bool-cases (str_eq s.upload_id new.upload_id)) [
    | inl x ↦ rw x (n, All-map-put new ss n ps)
    | inr x ↦ rw x (p, All-map-put new ss n ps)
  ]

  pub All-keep : (q : UploadSession → Bool) (ss : List UploadSession) → All P ss → All P (keep q ss)
  All-keep q [] h = tt
  All-keep q (s ∷ ss) (p, ps) = elim (Bool-cases (q s)) [
    | inl x ↦ rw x (p, All-keep q ss ps)
    | inr x ↦ rw x (All-keep q ss ps)
  ]

  pub test-ok :
      {A : Type 0} (b : Bool) (x : A) (e : Error) {y : A}
      → (if b then ok x else err e) ≡ ok y
      → x ≡ y
  test-ok true x e h = ok_injective h
  test-ok false x e h = absurd (cc)

  pub update_session-All :
      (f : Faults) (new : UploadSession) (ss : List UploadSession) {us : List UploadSession}
      → P new
      → All P ss
      → update_session f new ss ≡ ok us
      → All P us
  unfolding update_session
  update_session-All f new ss n h e =
      subst (All P) (test-ok _ _ _ (or_fault-ok f.save _ e)) (All-map-put new ss n h)

  pub delete_session-All :
      (f : Faults) (id : Text) (ss : List UploadSession) {us : List UploadSession}
      → All P ss
      → delete_session f id ss ≡ ok us
      → All P us
  unfolding delete_session
  delete_session-All f id ss h e =
      subst (All P) (test-ok _ _ _ (or_fault-ok f.delete _ e)) (All-keep _ ss h)

  pub ok_or-All :
      (ss : List UploadSession) (r : Result (List UploadSession))
      → All P ss
      → ((us : List UploadSession) → r ≡ ok us → All P us)
      → All P (ok_or ss r)
  ok_or-All ss (err e) h k = h
  ok_or-All ss (ok us) h k = k us refl

  pub create_session-All :
      (f : Faults) (new : UploadSession) (ss : List UploadSession) {us : List UploadSession}
      → P new
      → All P ss
      → create_session f new ss ≡ ok us
      → All P us
  unfolding create_session
  create_session-All f new ss n h e =
      elim (Bool-cases (any (λ s. str_eq s.upload_id new.upload_id) ss)) [
        | inl x ↦ absurd (cc (rw x at (or_fault-ok f.save _ e)))
        | inr x ↦
            subst (All P) (ok_injective (rw x at (or_fault-ok f.save _ e))) (All-concat P ss h n)
      ]
