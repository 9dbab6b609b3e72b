-- ===== src/Uploads/Sessions/Starts.antt =====
-- A property of every session, through the start and the cancelling of an upload
-- (backend/internal/application/service/upload_service.go).
use yunxia.Prelude.{
  ℕ, List, Bool, true, false, All, Text, txt, str_eq, ltb, if◌then◌else◌, Option, none, Result, ok,
  err, not_found, >>=-eq-ok, upload_invalid_state, refuse_if, ◌≡◌, refl, sym, inl, inr, Bool-cases,
  Result-cases, Option-cases,
}
use mathlib.Core.Path.{subst}
use yunxia.Permission.{RequestAuth}
use yunxia.Acl.Authorizer.{Authorizer}
use yunxia.Uploads.{
  UploadSession, World, Faults, find_session, delete_session, cancel_check, finish_cancel, cancel,
  session_missing, authorize_upload_session,
}
use yunxia.Uploads.Commit.{Environment, UploadedFile}
use yunxia.Uploads.Finish.{local_item}
use yunxia.Uploads.Init.{
  Options, Target, UploadInitRequest, UploadInitResponse, create_session, new_session,
  commit_upload_init_metadata_file, finish_fast, init_over, open_session, init_session, init_at,
  init_local, content_of,
}
use yunxia.Uploads.Sessions.{delete_session-All, create_session-All}
use yunxia.Uploads.Sessions.Endings.{commit_init-sessions}

module _ (P : UploadSession → Type 0) where
  finish_fast-All :
      (item : UploadedFile) (r : World × Result ℕ)
      → All P (r.0.sessions)
      → All P ((finish_fast item r).0.sessions)
  unfolding finish_fast
  finish_fast-All item (w, err e) h = h
  finish_fast-All item (w, ok node_id) h = h

  if-All :
      (b : Bool) (r u : World × Result UploadInitResponse)
      → All P (r.0.sessions)
      → All P (u.0.sessions)
      → All P ((if b then r else u).0.sessions)
  if-All true r u h k = h
  if-All false r u h k = k

  init_over-All :
      (e : Environment) (f : Faults) (user_id : ℕ) (target : Target) (req : UploadInitRequest)
      (virtual_path physical there : Text) (w : World)
      → All P w.sessions
      → All P ((init_over e f user_id target req virtual_path physical there w).0.sessions)
  unfolding init_over
  init_over-All e f user_id target req virtual_path physical there w h =
      let item = local_item virtual_path physical there in
      if-All _ _ _
        (finish_fast-All item (commit_upload_init_metadata_file e user_id target req item w)
          (subst (All P) (sym (commit_init-sessions P e user_id target req item w)) h))
        h

  open_session-All :
      (f : Faults) (session : UploadSession) (w : World)
      → P session
      → All P w.sessions
      → All P ((open_session f session w).0.sessions)
  unfolding open_session
  open_session-All f session w p h = elim (Result-cases (create_session f session w.sessions)) [
    | inr (x, a) ↦ rw (open_session, a) h
    | inl (ss, a) ↦ rw (open_session, a) (create_session-All P f session w.sessions p h a)
  ]

  init_session-All :
      (f : Faults) (fresh : UploadSession) (w : World) (r : Result UploadSession)
      → P fresh
      → All P w.sessions
      → All P ((init_session f fresh w r).0.sessions)
  unfolding init_session
  init_session-All f fresh w (ok session) p h = h
  init_session-All f fresh w (err not_found) p h = open_session-All f fresh w p h
  init_session-All f fresh w (err _) p h = h

  init_at-All :
      (e : Environment) (f : Faults) (o : Options) (upload_id : Text) (now user_id : ℕ)
      (target : Target) (req : UploadInitRequest) (virtual_path : Text) (w : World)
      (r : Result (Text × Text))
      → P (new_session o upload_id now user_id target req)
      → All P w.sessions
      → All P ((init_at e f o upload_id now user_id target req virtual_path w r).0.sessions)
  unfolding init_at
  init_at-All e f o upload_id now user_id target req virtual_path w (err x) p h = h
  init_at-All e f o upload_id now user_id target req virtual_path w (ok (root, physical)) p h =
      elim (Option-cases (if f.unseen then none else content_of physical w.files)) [
        | inl x ↦
            rw (init_at, x)
              (init_session-All f (new_session o upload_id now user_id target req) w _ p h)
        | inr (there, x) ↦
            rw (init_at, x) (init_over-All e f user_id target req virtual_path physical there w h)
      ]

  pub init_local-All :
      (e : Environment) (f : Faults) (o : Options) (upload_id : Text) (now user_id : ℕ)
      (target : Target) (req : UploadInitRequest) (w : World)
      → P (new_session o upload_id now user_id target req)
      → All P w.sessions
      → All P ((init_local e f o upload_id now user_id target req w).0.sessions)
  unfolding init_local
  init_local-All e f o upload_id now user_id target req w p h =
      elim (Bool-cases (ltb o.max_upload_size req.file_size)) [
        | inl x ↦ rw (init_local, x) h
        | inr x ↦ rw (init_local, x) (init_at-All e f o upload_id now user_id target req _ w _ p h)
      ]

  finish_cancel-All :
      (f : Faults) (id : Text) (w : World) (r : Result (List UploadSession))
      → All P w.sessions
      → ((ss : List UploadSession) → r ≡ ok ss → All P ss)
      → All P ((finish_cancel f id w r).0.sessions)
  unfolding finish_cancel
  finish_cancel-All f id w (err e) h k = h
  finish_cancel-All f id w (ok ss) h k = k ss refl

  cancel_check-ok :
      (a : Option Authorizer) (auth : Option RequestAuth) (f : Faults) (id : Text) (w : World)
      {ss : List UploadSession}
      → cancel_check a auth f id w ≡ ok ss
      → delete_session f id w.sessions ≡ ok ss
  unfolding cancel_check
  cancel_check-ok a auth f id w e =
      let (session, _, h1) = >>=-eq-ok (session_missing (find_session f id w.sessions)) _ e in
      let (_, _, h2) = >>=-eq-ok (authorize_upload_session a auth session) _ h1 in
      let (_, _, h3) =
        >>=-eq-ok (refuse_if (str_eq session.status (txt "completed")) upload_invalid_state) _ h2 in
      h3

  pub cancel-All :
      (a : Option Authorizer) (auth : Option RequestAuth) (f : Faults) (id : Text) (w : World)
      → All P w.sessions
      → All P ((cancel a auth f id w).0.sessions)
  unfolding cancel
  cancel-All a auth f id w h =
      finish_cancel-All f id w (cancel_check a auth f id w) h
        (λ ss e. delete_session-All P f id w.sessions h (cancel_check-ok a auth f id w e))
