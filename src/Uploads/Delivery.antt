-- ===== src/Uploads/Delivery.antt =====
-- The end of an upload that is complete (`Finish` of
-- backend/internal/application/service/upload_service.go).
use yunxia.Prelude.{
  ℕ, ◌<◌, List, [], ◌∷◌, true, false, not, ◌||◌, keep, All, Text, txt, str_eq, str_eq_refl,
  if◌then◌else◌, Option, none, some, ok, err, not_found, ◌>>◌, ◌≡◌, refl, ap, ◌∙◌, inl, inr,
  Bool-cases, arith,
}
use yunxia.Permission.{RequestAuth}
use yunxia.Acl.Authorizer.{Authorizer}
use yunxia.Vfs.Mounts.{StorageSource}
use yunxia.Local.{resolve_physical_path}
use yunxia.Uploads.{
  UploadSession, StoredFile, World, first_session, find_session, delete_session,
  authorize_upload_session, session_missing, has_index,
}
use yunxia.Uploads.Increasing.{length_covers}
use yunxia.Uploads.Faultless.{no_faults, assembled, any-found, copy_chunks-assembled}
use yunxia.Uploads.Commit.{
  Environment, UploadedFile, UploadFinishResponse, commit_upload_session_metadata_file,
}
use yunxia.Uploads.Finish.{
  local_item, target_virtual, clean_up, finish_commit, after_write, written_check, write_target,
  finish_local, put_file, has_file, copy_chunks,
}
use yunxia.Uploads.Drivers.{finish_check, finish_by_driver, finish}
use yunxia.Uploads.Init.{content_of}
use yunxia.Uploads.Merging.{IsHashed}
use yunxia.Uploads.Blocking.{made}
use yunxia.Uploads.Whole.{IsUnderway, send_all, send_all-IsUnderway}

-- The committer takes every file of a session.
unfoldable pub Commits : Environment → Type 0
Commits e =
    (source : StorageSource) (session : UploadSession) (item : UploadedFile) (w : World)
    → (node_id : ℕ) × (commit_upload_session_metadata_file e source session item w
        ≡ (w, ok node_id))

content_of-put_file :
    (path content : Text) (files : List StoredFile)
    → content_of path (put_file path content files) ≡ some content
unfolding content_of put_file
content_of-put_file path content files = rw (str_eq_refl path) refl

first_session-keep :
    (id : Text) (ss : List UploadSession)
    → first_session id (keep (λ s. not (str_eq s.upload_id id)) ss) ≡ err not_found
unfolding first_session
first_session-keep id [] = refl
first_session-keep id (t ∷ ts) = elim (Bool-cases (str_eq t.upload_id id)) [
  | inl x ↦ rw x (first_session-keep id ts)
  | inr x ↦ rw (x, x) (first_session-keep id ts)
]

session_gone :
    (session : UploadSession) (w : World) {s : UploadSession}
    → first_session session.upload_id w.sessions ≡ ok s
    → first_session session.upload_id ((clean_up no_faults session w).sessions) ≡ err not_found
unfolding clean_up delete_session
session_gone session w h =
    rw (any-found session.upload_id w.sessions h) (first_session-keep session.upload_id w.sessions)

module _ (e : Environment) (source : StorageSource) (session : UploadSession)
    (physical whole : Text) (w : World) where
  abbrev written_world : World
  written_world = record w { files = put_file physical whole w.files }

  passes : IsHashed e session whole → written_check e no_faults session whole (ok tt) ≡ ok tt
  unfolding written_check
  passes h = rw h refl

  write_target-copied :
      copy_chunks no_faults session.upload_id w.chunks session.total_chunks 0 [] ≡ (whole, ok tt)
      → IsHashed e session whole
      → write_target e no_faults source session physical w
        ≡ finish_commit
            (clean_up no_faults session)
            session
            (local_item (target_virtual session) physical whole)
            (commit_upload_session_metadata_file e source session
              (local_item (target_virtual session) physical whole)
              written_world)
  unfolding write_target after_write
  write_target-copied copied hashed =
      ap
        (λ c.
          after_write e no_faults source session physical (c.0)
            (record w { files = put_file physical (c.0) w.files })
            (written_check e no_faults session (c.0) (c.1) >> ok tt))
        copied
      ∙ ap (λ r. after_write e no_faults source session physical whole written_world (r >> ok tt))
          (passes hashed)

  write_target-whole :
      copy_chunks no_faults session.upload_id w.chunks session.total_chunks 0 [] ≡ (whole, ok tt)
      → IsHashed e session whole
      → Commits e
      → (p : UploadFinishResponse) × (write_target e no_faults source session physical w
          ≡ (clean_up no_faults session written_world, ok p))
  unfolding Commits finish_commit
  write_target-whole copied hashed commits =
      let item = local_item (target_virtual session) physical whole in
      let (node_id, c) = commits source session item written_world in
      (
        record { upload_id = session.upload_id; result_vfs_node_id = node_id; file = item },
        write_target-copied copied hashed
            ∙ ap (finish_commit (clean_up no_faults session) session item) c,
      )

module _ (a : Option Authorizer) (auth : Option RequestAuth) (e : Environment)
    (source : StorageSource) (s : UploadSession) (part : ℕ → Text) (now : ℕ)
    (root physical : Text) where
  abbrev whole : Text
  whole = assembled part 0 s.total_chunks

  target_seen :
      (us : List ℕ) (t : ℕ)
      → target_virtual (record s { uploaded_chunks = us; updated_at = t }) ≡ target_virtual s
  unfolding target_virtual
  target_seen us t = refl

  IsHashed-seen :
      (us : List ℕ) (t : ℕ)
      → IsHashed e s whole
      → IsHashed e (record s { uploaded_chunks = us; updated_at = t }) whole
  IsHashed-seen us t h = h

  allowed_seen :
      (auth : Option RequestAuth) (us : List ℕ) (t : ℕ)
      → authorize_upload_session a auth s ≡ ok tt
      → authorize_upload_session a auth (record s { uploaded_chunks = us; updated_at = t }) ≡ ok tt
  unfolding authorize_upload_session
  allowed_seen none us t h = h
  allowed_seen (some r) us t h = h

  finished :
      (vs : List ℕ) (files : List StoredFile) (v : World)
      (u : IsUnderway a auth s part now files vs v)
      → authorize_upload_session a auth s ≡ ok tt
      → e.find_source s.source_id ≡ ok source
      → str_eq source.driver_type (txt "local") ≡ true
      → finish a auth e no_faults s.upload_id [] v
        ≡ finish_local e no_faults source
            (record s { uploaded_chunks = vs; updated_at = u.updated })
            v
  unfolding finish finish_check find_session session_missing finish_by_driver
  finished vs files v u allowed there driver =
      rw (finish, u.found, allowed_seen auth vs u.updated allowed, there, finish_by_driver, driver)
        refl

  -- An upload that is underway, or has just begun, is completed while nothing fails: its missing parts
  -- are sent in any order, some maybe more than once, by one who may write there, and it is finished.
  -- If the source is local, the target resolves and is free, the whole content has the hash that was
  -- given, and the committer takes it, then the finish ends well, the target holds the parts in the
  -- order of their indices, and the session is gone.
  pub upload_delivers :
      (us order : List ℕ) (w : World)
      → IsUnderway a auth s part now w.files us w
      → authorize_upload_session a auth s ≡ ok tt
      → All (λ i. i < s.total_chunks) order
      → ((k : ℕ) → k < s.total_chunks → (has_index k us || has_index k order) ≡ true)
      → e.find_source s.source_id ≡ ok source
      → str_eq source.driver_type (txt "local") ≡ true
      → resolve_physical_path e.decode_config source (target_virtual s) ≡ ok (root, physical)
      → has_file physical w.files ≡ false
      → IsHashed e s whole
      → Commits e
      → (p : UploadFinishResponse) × ((finish a auth e no_faults s.upload_id []
            (send_all a auth s part now order w)).1
          ≡ ok p)
        × (content_of physical (
              (finish a auth e no_faults s.upload_id []
                (send_all a auth s part now order w)).0.files)
            ≡ some whole)
        × (first_session s.upload_id (
              (finish a auth e no_faults s.upload_id []
                (send_all a auth s part now order w)).0.sessions)
            ≡ err not_found)
  unfolding clean_up
  upload_delivers us order w u allowed below all there driver placed absent hashed commits =
      let (vs, v, seen) =
        send_all-IsUnderway a auth s part now w.files order us w allowed below u in
      let sent = send_all a auth s part now order w in
      let session : UploadSession = record s { uploaded_chunks = vs; updated_at = v.updated } in
      let enough =
        length_covers 0 s.total_chunks s.total_chunks vs v.rising
          (λ k lo hi. seen k (all k (omega (arith, hi)))) in
      let copied =
        copy_chunks-assembled s.upload_id sent.chunks part s.total_chunks 0 [] (λ k lo hi.
          v.chunks k
          ∙ ap (λ b. if b then some (part k) else none) (seen k (all k (omega (arith, hi))))) in
      let (p, ends) =
        write_target-whole e source session physical whole sent copied
          (IsHashed-seen vs v.updated hashed) commits in
      let free = ap (has_file physical) v.kept ∙ absent in
      let begins =
        made e no_faults source session sent root physical enough
          (ap (resolve_physical_path e.decode_config source) (target_seen vs v.updated) ∙ placed)
          free in
      let result = finished vs w.files sent v allowed there driver ∙ begins ∙ ends in
      (
        p,
        ap (λ r. r.1) result,
        ap (λ r. content_of physical (r.0.files)) result
            ∙ content_of-put_file physical whole sent.files,
        ap (λ r. first_session s.upload_id (r.0.sessions)) result
            ∙ session_gone session (record sent { files = put_file physical whole sent.files })
                v.found,
      )
