-- ===== src/Uploads/Chunks.antt =====
-- What `UploadChunk` answers on every path
-- (backend/internal/application/service/upload_service.go).
use yunxia.Prelude.{
  ℕ, ◌<◌, List, str_eq_refl, str_eq_sound, true, false, Text, str_eq, ltb, ltb→lt, ok_injective, ℤ,
  pos, negsuc, Option, none, some, Result, ok, err, Error, not_found, upload_session_not_found,
  upload_invalid_state, upload_chunk_conflict, ◌>>=◌, ◌>>◌, ◌≡◌, ◌≢◌, refl, sym, ap, ◌∙◌, inl, inr,
  Bool-cases, Result-cases, Option-cases, arith,
}
use mathlib.Core.Path.{subst}
use yunxia.Permission.{RequestAuth}
use yunxia.Acl.Authorizer.{Authorizer}
use yunxia.Uploads.{
  UploadSession, World, Faults, UploadChunkResponse, chunk_response, find_session, session_missing,
  authorize_upload_session, chunk_index, chunk_check, read_chunk, readable, put_chunk, leave_chunk,
  update_session, with_chunk, register, write_chunk, store_chunk, upload_chunk,
}

module _ (a : Option Authorizer) (auth : Option RequestAuth) (f : Faults) (now : ℕ)
    (upload_id : Text) (index : ℤ) (content : Text) (w : World) where
  -- The session is there, it is the caller's, and it has a chunk of the index.
  pub record IsAccepted (session : UploadSession) (i : ℕ) : Type 0 where
    pub found : find_session f upload_id w.sessions ≡ ok session
    pub allowed : authorize_upload_session a auth session ≡ ok tt
    pub in_range : index ≡ pos i
    pub below : i < session.total_chunks

  -- What the answer and the change are, by what was found.
  pub data IsUpload : World → Result UploadChunkResponse → Type 0 where
    unknown :
        find_session f upload_id w.sessions ≡ err not_found
        → IsUpload w (err upload_session_not_found)
    unreadable :
        (e : Error)
        → e ≢ not_found
        → find_session f upload_id w.sessions ≡ err e
        → IsUpload w (err e)
    denied :
        (session : UploadSession) (e : Error)
        → find_session f upload_id w.sessions ≡ ok session
        → authorize_upload_session a auth session ≡ err e
        → IsUpload w (err e)
    out_of_range :
        (session : UploadSession)
        → find_session f upload_id w.sessions ≡ ok session
        → chunk_index index session.total_chunks ≡ err upload_invalid_state
        → IsUpload w (err upload_invalid_state)
    repeated :
        (session : UploadSession) (i : ℕ)
        → IsAccepted session i
        → readable f i (read_chunk upload_id i w.chunks) ≡ some content
        → IsUpload w (ok (chunk_response upload_id i content true))
    conflicting :
        (session : UploadSession) (i : ℕ) (other : Text)
        → IsAccepted session i
        → readable f i (read_chunk upload_id i w.chunks) ≡ some other
        → other ≢ content
        → IsUpload w (err upload_chunk_conflict)
    no_directory :
        (session : UploadSession) (i : ℕ) (e : Error)
        → IsAccepted session i
        → readable f i (read_chunk upload_id i w.chunks) ≡ none
        → f.make_dir ≡ some e
        → IsUpload w (err e)
    torn :
        (session : UploadSession) (i : ℕ) (e : Error) (left : Option Text)
        → IsAccepted session i
        → readable f i (read_chunk upload_id i w.chunks) ≡ none
        → f.make_dir ≡ none
        → f.write_chunk ≡ some (e, left)
        → IsUpload (leave_chunk upload_id i left w) (err e)
    unregistered :
        (session : UploadSession) (i : ℕ) (e : Error)
        → IsAccepted session i
        → readable f i (read_chunk upload_id i w.chunks) ≡ none
        → f.make_dir ≡ none
        → f.write_chunk ≡ none
        → update_session f
            (record session {
              uploaded_chunks = with_chunk i session.uploaded_chunks;
              updated_at = now;
            })
            w.sessions
          ≡ err e
        → IsUpload (record w { chunks = put_chunk upload_id i content w.chunks }) (err e)
    stored :
        (session : UploadSession) (i : ℕ) (ss : List UploadSession)
        → IsAccepted session i
        → readable f i (read_chunk upload_id i w.chunks) ≡ none
        → f.make_dir ≡ none
        → f.write_chunk ≡ none
        → update_session f
            (record session {
              uploaded_chunks = with_chunk i session.uploaded_chunks;
              updated_at = now;
            })
            w.sessions
          ≡ ok ss
        → IsUpload
            (record w { sessions = ss; chunks = put_chunk upload_id i content w.chunks })
            (ok (chunk_response upload_id i content false))

  by : {p q : World × Result UploadChunkResponse} → p ≡ q → IsUpload q.0 q.1 → IsUpload p.0 p.1
  by e i = subst (λ p. IsUpload p.0 p.1) (sym e) i

  register-IsUpload :
      (session : UploadSession) (i : ℕ)
      → IsAccepted session i
      → readable f i (read_chunk upload_id i w.chunks) ≡ none
      → f.make_dir ≡ none
      → f.write_chunk ≡ none
      → IsUpload
          ((register f now upload_id session i content
            (record w { chunks = put_chunk upload_id i content w.chunks })).0)
          ((register f now upload_id session i content
            (record w { chunks = put_chunk upload_id i content w.chunks })).1)
  unfolding register
  register-IsUpload session i ac absent x y =
      elim (Result-cases (
        update_session f
          (record session {
            uploaded_chunks = with_chunk i session.uploaded_chunks;
            updated_at = now;
          })
          w.sessions)) [
            | inr (e, z) ↦ by (rw (register, z) refl) (unregistered session i e ac absent x y z)
            | inl (ss, z) ↦ by (rw (register, z) refl) (stored session i ss ac absent x y z)
          ]

  write_chunk-IsUpload :
      (session : UploadSession) (i : ℕ)
      → IsAccepted session i
      → readable f i (read_chunk upload_id i w.chunks) ≡ none
      → IsUpload
          ((write_chunk f now upload_id session i content w).0)
          ((write_chunk f now upload_id session i content w).1)
  unfolding write_chunk
  write_chunk-IsUpload session i ac absent = elim (Option-cases f.make_dir) [
    | inr (e, x) ↦ by (rw (write_chunk, x) refl) (no_directory session i e ac absent x)
    | inl x ↦ elim (Option-cases f.write_chunk) [
      | inr ((e, left), y) ↦ by (rw (write_chunk, x, y) refl) (torn session i e left ac absent x y)
      | inl y ↦ by (rw (write_chunk, x, y) refl) (register-IsUpload session i ac absent x y)
    ]
  ]

  differs : (other : Text) → str_eq other content ≡ false → other ≢ content
  differs other y e = absurd (cc (sym y ∙ ap (λ t. str_eq t content) e ∙ str_eq_refl content))

  store_chunk-IsUpload :
      (session : UploadSession) (i : ℕ)
      → IsAccepted session i
      → IsUpload
          ((store_chunk f now upload_id content w (ok (session, i))).0)
          ((store_chunk f now upload_id content w (ok (session, i))).1)
  unfolding store_chunk
  store_chunk-IsUpload session i ac =
      elim (Option-cases (readable f i (read_chunk upload_id i w.chunks))) [
        | inl x ↦ by (rw (store_chunk, x) refl) (write_chunk-IsUpload session i ac x)
        | inr (other, x) ↦ elim (Bool-cases (str_eq other content)) [
          | inl y ↦
              by (rw (store_chunk, x, y) refl)
                (repeated session i ac (x ∙ ap some (str_eq_sound other content y)))
          | inr y ↦
              by (rw (store_chunk, x, y) refl) (conflicting session i other ac x (differs other y))
        ]
      ]

  after_query : Result UploadSession → Result (UploadSession × ℕ)
  after_query r = do
    session ← session_missing r
    authorize_upload_session a auth session
    i ← chunk_index index session.total_chunks
    ok (session, i)

  chunk_index-ok : (k : ℤ) (n : ℕ) {i : ℕ} → chunk_index k n ≡ ok i → (k ≡ pos i) × (i < n)
  unfolding chunk_index
  chunk_index-ok (pos j) n h = elim (Bool-cases (ltb j n)) [
    | inl x ↦
        let same = ok_injective (rw x at h) in (ap pos same, omega (arith, ltb→lt j n x, same))
    | inr x ↦ absurd (cc (rw x at h))
  ]
  chunk_index-ok (negsuc j) n h = absurd (cc)

  chunk_index-err :
      (k : ℤ) (n : ℕ) {e : Error}
      → chunk_index k n ≡ err e
      → chunk_index k n ≡ err upload_invalid_state
  unfolding chunk_index
  chunk_index-err (pos j) n h = elim (Bool-cases (ltb j n)) [
    | inl x ↦ absurd (cc (rw x at h))
    | inr x ↦ rw x refl
  ]
  chunk_index-err (negsuc j) n h = refl

  found-IsUpload :
      (session : UploadSession)
      → find_session f upload_id w.sessions ≡ ok session
      → IsUpload
          ((store_chunk f now upload_id content w (after_query (ok session))).0)
          ((store_chunk f now upload_id content w (after_query (ok session))).1)
  unfolding after_query session_missing store_chunk
  found-IsUpload session found = elim (Result-cases (authorize_upload_session a auth session)) [
    | inr (e, x) ↦ by (rw (x, store_chunk) refl) (denied session e found x)
    | inl (done, x) ↦ elim (Result-cases (chunk_index index session.total_chunks)) [
      | inr (e, y) ↦
          let y' = chunk_index-err index session.total_chunks y in
          by (rw (x, y', store_chunk) refl) (out_of_range session found y')
      | inl (i, y) ↦
          let (k, below) = chunk_index-ok index session.total_chunks y in
          by (rw (x, y) refl) (
            store_chunk-IsUpload session i
              (record { found = found; allowed = x; in_range = k; below = below }))
    ]
  ]

  after_query-IsUpload :
      (r : Result UploadSession)
      → find_session f upload_id w.sessions ≡ r
      → IsUpload
          ((store_chunk f now upload_id content w (after_query r)).0)
          ((store_chunk f now upload_id content w (after_query r)).1)
  unfolding after_query session_missing store_chunk
  after_query-IsUpload (err not_found) found = unknown found
  after_query-IsUpload (err e) found = unreadable e (λ x. cc) found
  after_query-IsUpload (ok session) found = found-IsUpload session found

  -- `upload_chunk` ends in one of ten ways, and each has its conditions, its answer and its change. A
  -- chunk whose file can be read already and that is sent again changes nothing and is acknowledged,
  -- or refused if it differs: only if no file of the chunk can be read is one written, the session
  -- changed, or a failure of these answered.
  pub upload_chunk-IsUpload :
      IsUpload
        ((upload_chunk a auth f now upload_id index content w).0)
        ((upload_chunk a auth f now upload_id index content w).1)
  unfolding upload_chunk chunk_check after_query
  upload_chunk-IsUpload = after_query-IsUpload (find_session f upload_id w.sessions) refl
