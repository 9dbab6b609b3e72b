-- ===== src/Uploads/Merging.antt =====
-- What a finished upload leaves on the disk: the chunk files, one behind the other
-- (`finishLocal` of backend/internal/application/service/upload_service.go).
use yunxia.Prelude.{
  ℕ, ◌+◌, ◌≤◌, zero, suc, List, [], ◌++◌, Bool, true, false, not, ◌&&◌, length, Text, str_eq,
  is_empty, ltb, Option, none, some, Result, ok, err, Error, upload_hash_mismatch, >>=-eq-ok,
  refuse_if, ◌≡◌, refl, sym, ap, ◌∙◌, inl, inr, Bool-cases, Result-cases, Option-cases, arith,
}
use mathlib.Core.List.{append-nil, append_assoc}
use mathlib.Core.Path.{subst}
use yunxia.Vfs.Mounts.{StorageSource}
use yunxia.Local.{resolve_physical_path}
use yunxia.Uploads.{UploadSession, ChunkFile, World, Faults, or_fault, read_chunk, readable}
use yunxia.Uploads.Commit.{
  Environment, CommitRequest, UploadedFile, UploadFinishResponse, commit_request,
  record_commit_failure, after_commit, commit_upload_session_metadata_file,
}
use yunxia.Uploads.Finish.{
  copy_chunks, has_file, put_file, target_virtual, clean_up, finish_commit, written_check,
  local_item, after_write, write_target, or_stop, place_target, finish_local,
}

-- The contents of `n` chunk files from the index `i` on, one behind the other; none if one is missing.
pub gathered : Text → List ChunkFile → ℕ → ℕ → Option Text
gathered id cs zero i = some []
gathered id cs (suc n) i =
    let rest = gathered id cs n (i + 1) in
    elim (read_chunk id i cs) [
      | none ↦ none
      | some bytes ↦ elim rest [ none ↦ none | some others ↦ some (bytes ++ others) ]
    ]

readable-some :
    (f : Faults) (i : ℕ) (o : Option Text) {t : Text} → readable f i o ≡ some t → o ≡ some t
readable-some f i o h = elim (Bool-cases (f.unreadable i)) [
  | inl x ↦ absurd (cc (rw x at h))
  | inr x ↦ rw x at h
]

copy_chunks-ok :
    (f : Faults) (id : Text) (cs : List ChunkFile) (n i : ℕ) (out : Text)
    → (copy_chunks f id cs n i out).1 ≡ ok tt
    → (whole : Text) × (gathered id cs n i ≡ some whole)
      × ((copy_chunks f id cs n i out).0 ≡ out ++ whole)
unfolding copy_chunks gathered
copy_chunks-ok f id cs zero i out h = ([], refl, sym (append-nil out))
copy_chunks-ok f id cs (suc n) i out h = elim (Option-cases (readable f i (read_chunk id i cs))) [
  | inl x ↦ absurd (cc (rw (copy_chunks, x) at h))
  | inr (bytes, x) ↦ elim (Option-cases (f.copy i)) [
    | inr ((e, part), y) ↦ absurd (cc (rw (copy_chunks, x, y) at h))
    | inl y ↦
        let (whole, g, eq) =
          copy_chunks-ok f id cs n (i + 1) (out ++ bytes) (rw (copy_chunks, x, y) at h) in
        (
          bytes ++ whole,
          rw (gathered, readable-some f i (read_chunk id i cs) x, g) refl,
          rw (copy_chunks, x, y) (eq ∙ append_assoc out bytes whole),
        )
  ]
]

after_commit-files :
    (req : CommitRequest) (w : World) (r : Result (Option ℕ))
    → (after_commit req w r).0.files ≡ w.files
unfolding after_commit record_commit_failure
after_commit-files req w (err e) = refl
after_commit-files req w (ok none) = refl
after_commit-files req w (ok (some node_id)) = refl

commit-files :
    (e : Environment) (source : StorageSource) (session : UploadSession) (item : UploadedFile)
    (w : World)
    → (commit_upload_session_metadata_file e source session item w).0.files ≡ w.files
unfolding commit_upload_session_metadata_file
commit-files e source session item w = elim (Option-cases e.committer) [
  | inl x ↦ rw (commit_upload_session_metadata_file, x) refl
  | inr (commit, x) ↦
      rw (commit_upload_session_metadata_file, x)
        (after_commit-files (commit_request source session item) w _)
]

finish_commit-files :
    (f : Faults) (session : UploadSession) (item : UploadedFile) (r : World × Result ℕ)
    → (finish_commit (clean_up f session) session item r).0.files ≡ r.0.files
unfolding finish_commit clean_up
finish_commit-files f session item (w, err e) = refl
finish_commit-files f session item (w, ok node_id) = refl

pub after_write-files :
    (e : Environment) (f : Faults) (source : StorageSource) (session : UploadSession)
    (physical out : Text) (w : World) (r : Result (Unit {0}))
    → (after_write e f source session physical out w r).0.files ≡ w.files
unfolding after_write
after_write-files e f source session physical out w (err x) = refl
after_write-files e f source session physical out w (ok done) =
    let item = local_item (target_virtual session) physical out in
    finish_commit-files f session item (commit_upload_session_metadata_file e source session item w)
    ∙ commit-files e source session item w

after_write-ok :
    (e : Environment) (f : Faults) (source : StorageSource) (session : UploadSession)
    (physical out : Text) (w : World) (r : Result (Unit {0})) {p : UploadFinishResponse}
    → (after_write e f source session physical out w r).1 ≡ ok p
    → r ≡ ok tt
unfolding after_write
after_write-ok e f source session physical out w (err x) h = absurd (cc)
after_write-ok e f source session physical out w (ok done) h = refl

refuse_if-ok : (b : Bool) (e : Error) → refuse_if b e ≡ ok tt → b ≡ false
refuse_if-ok false e h = refl
refuse_if-ok true e h = absurd (cc)

-- The hash that the client gave, if it gave one, is that of the content.
abbrev pub IsHashed : Environment → UploadSession → Text → Type 0
IsHashed e session whole =
    (not (is_empty session.file_hash) && not (str_eq (e.md5 whole) session.file_hash)) ≡ false

written_check-ok :
    (e : Environment) (f : Faults) (session : UploadSession) (out : Text)
    (copied : Result (Unit {0}))
    → written_check e f session out copied ≡ ok tt
    → (copied ≡ ok tt) × IsHashed e session out
unfolding written_check
written_check-ok e f session out copied h =
    let (_, c, h1) = >>=-eq-ok copied _ h in
    let (_, _, h2) = >>=-eq-ok (or_fault f.close (ok tt)) _ h1 in
    let (_, _, h3) = >>=-eq-ok (or_fault f.hash (ok tt)) _ h2 in
    (c, refuse_if-ok _ upload_hash_mismatch h3)

-- What a finish that ends well has found and done.
pub record IsWhole (e : Environment) (f : Faults) (source : StorageSource) (session : UploadSession)
    (w u : World) : Type 0 where
  pub root : Text
  pub physical : Text
  pub whole : Text
  pub enough : session.total_chunks ≤ length session.uploaded_chunks
  pub placed :
      resolve_physical_path e.decode_config source (target_virtual session) ≡ ok (root, physical)
  pub fresh : (not f.unseen && has_file physical w.files) ≡ false
  pub chunks : gathered session.upload_id w.chunks session.total_chunks 0 ≡ some whole
  pub hashed : IsHashed e session whole
  pub files : u.files ≡ put_file physical whole w.files

or_stop-ok :
    (o : Option Error) (w : World) (next : World × Result UploadFinishResponse)
    {p : UploadFinishResponse}
    → (or_stop o w next).1 ≡ ok p
    → or_stop o w next ≡ next
or_stop-ok none w next h = refl
or_stop-ok (some x) w next h = absurd (cc)

module _ (e : Environment) (f : Faults) (source : StorageSource) (session : UploadSession) where
  write_target-ok :
      (physical : Text) (w : World) {p : UploadFinishResponse}
      → (write_target e f source session physical w).1 ≡ ok p
      → (whole : Text) × (gathered session.upload_id w.chunks session.total_chunks 0 ≡ some whole)
        × IsHashed e session whole
        × ((write_target e f source session physical w).0.files ≡ put_file physical whole w.files)
  unfolding write_target
  write_target-ok physical w h =
      let result = copy_chunks f session.upload_id w.chunks session.total_chunks 0 [] in
      let u = record w { files = put_file physical (result.0) w.files } in
      let checked = after_write-ok e f source session physical (result.0) u _ h in
      let (_, c, _) = >>=-eq-ok (written_check e f session (result.0) (result.1)) _ checked in
      let (copied, hashed) = written_check-ok e f session (result.0) (result.1) c in
      let (whole, g, same) =
        copy_chunks-ok f session.upload_id w.chunks session.total_chunks 0 [] copied in
      let files = after_write-files e f source session physical (result.0) u _ in
      (
        whole,
        g,
        subst (IsHashed e session) same hashed,
        files ∙ ap (λ t. put_file physical t w.files) same,
      )

  placed-IsWhole :
      (w : World) (root physical : Text) {p : UploadFinishResponse}
      → session.total_chunks ≤ length session.uploaded_chunks
      → resolve_physical_path e.decode_config source (target_virtual session) ≡ ok (root, physical)
      → (place_target e f source session w (ok (root, physical))).1 ≡ ok p
      → IsWhole e f source session w ((place_target e f source session w (ok (root, physical))).0)
  unfolding place_target
  placed-IsWhole w root physical enough placed h =
      elim (Bool-cases (not f.unseen && has_file physical w.files)) [
        | inl x ↦ absurd (cc (rw (place_target, x) at h))
        | inr x ↦
            let next = write_target e f source session physical w in
            let h1 : (or_stop f.make_dir w (or_stop f.create_file w next)).1 ≡ ok _ =
              rw (place_target, x) at h in
            let s1 = or_stop-ok f.make_dir w (or_stop f.create_file w next) h1 in
            let s2 = or_stop-ok f.create_file w next (ap (λ r. r.1) (sym s1) ∙ h1) in
            let (whole, g, hashed, files) =
              write_target-ok physical w (ap (λ r. r.1) (sym (s1 ∙ s2)) ∙ h1) in
            rw (place_target, x)
              (record {
                root = root;
                physical = physical;
                whole = whole;
                enough = enough;
                placed = placed;
                fresh = x;
                chunks = g;
                hashed = hashed;
                files = ap (λ r. r.0.files) (s1 ∙ s2) ∙ files;
              })
      ]

  -- A finish that ends well leaves at the target exactly the chunk files in the order of their
  -- indices, of which none is missing, and no other file is touched; no file was seen at the target
  -- before, and the content has the hash that the client gave, if it gave one. Whatever fails.
  pub finish_local-IsWhole :
      (w : World) {p : UploadFinishResponse}
      → (finish_local e f source session w).1 ≡ ok p
      → IsWhole e f source session w ((finish_local e f source session w).0)
  unfolding finish_local
  finish_local-IsWhole w h =
      elim (Bool-cases (ltb (length session.uploaded_chunks) session.total_chunks)) [
        | inl x ↦ absurd (cc (rw (finish_local, x) at h))
        | inr x ↦
            elim (Result-cases
              (resolve_physical_path e.decode_config source (target_virtual session))) [
                | inr (er, y) ↦ absurd (cc (rw (finish_local, x, y, place_target) at h))
                | inl ((root, physical), y) ↦
                    rw (finish_local, x, y)
                      (placed-IsWhole w root physical (ground arith) y
                        (rw (finish_local, x, y) at h))
              ]
      ]
