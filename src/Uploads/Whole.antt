-- ===== src/Uploads/Whole.antt =====
-- A file that is sent in chunks, in any order, arrives: `UploadChunk` and `Finish` together
-- (backend/internal/application/service/upload_service.go).
use yunxia.Prelude.{
  ℕ, ◌<◌, List, [], ◌∷◌, map, true, false, ◌||◌, Text, ltb, ◌==◌, ==_iff, if◌then◌else◌, pos,
  Option, none, some, Result, ok, ◌≡◌, refl, sym, ap, ◌∙◌, All, inl, inr, Bool-cases, arith,
}
use mathlib.Core.Path.{subst}
use yunxia.Permission.{RequestAuth}
use yunxia.Acl.Authorizer.{Authorizer}
use yunxia.Uploads.{
  UploadSession, StoredFile, World, UploadChunkResponse, first_session, find_session, put_session,
  authorize_upload_session, session_missing, read_chunk, put_chunk, with_chunk, has_index,
  chunk_index, chunk_check, register, write_chunk, store_chunk, upload_chunk,
}
use yunxia.Uploads.Increasing.{
  Increasing, with_chunk-Increasing, with_chunk-known, has_index-with_chunk,
}
use yunxia.Uploads.Faultless.{no_faults, read_chunk-put, first_session-put, update_session-found}

module _ (a : Option Authorizer) (auth : Option RequestAuth) (s : UploadSession) (part : ℕ → Text)
    (now : ℕ) where
  -- Sending one part.
  unfoldable pub send : ℕ → World → World × Result UploadChunkResponse
  send i w = upload_chunk a auth no_faults now s.upload_id (pos i) (part i) w

  -- Sending the parts of some indices.
  unfoldable pub send_all : List ℕ → World → World
  unfolding send
  send_all [] w = w
  send_all (i ∷ is) w = send_all is ((send i w).0)

module _ (a : Option Authorizer) (auth : Option RequestAuth) (s : UploadSession) (part : ℕ → Text)
    (now : ℕ) (files : List StoredFile) where
  -- The session as it is when it has seen some chunks.
  abbrev seen : List ℕ → ℕ → UploadSession
  seen us t = record s { uploaded_chunks = us; updated_at = t }

  -- The chunks of the indices in `us` are there, and no others; the files are as they were.
  pub record IsUnderway (us : List ℕ) (w : World) : Type 0 where
    pub updated : ℕ
    pub found : first_session s.upload_id w.sessions ≡ ok (seen us updated)
    pub rising : Increasing 0 s.total_chunks us
    pub chunks :
        (k : ℕ)
        → read_chunk s.upload_id k w.chunks ≡ (if has_index k us then some (part k) else none)
    pub kept : w.files ≡ files

  allowed_still :
      (auth : Option RequestAuth) (us : List ℕ) (t : ℕ)
      → authorize_upload_session a auth (seen us t) ≡ authorize_upload_session a auth s
  unfolding authorize_upload_session
  allowed_still none us t = refl
  allowed_still (some r) us t = refl

  checked :
      (us : List ℕ) (i : ℕ) (w : World) (u : IsUnderway us w)
      → authorize_upload_session a auth s ≡ ok tt
      → i < s.total_chunks
      → chunk_check a auth no_faults s.upload_id (pos i) w ≡ ok (seen us u.updated, i)
  unfolding chunk_check find_session session_missing chunk_index
  checked us i w u allowed below =
      let b : ltb i s.total_chunks ≡ true = ground arith in
      rw (u.found, allowed_still auth us u.updated ∙ allowed, b) refl

  stored_there :
      (us : List ℕ) (i : ℕ) (w : World) (u : IsUnderway us w)
      → has_index i us ≡ true
      → (store_chunk no_faults now s.upload_id (part i) w (ok (seen us u.updated, i))).0 ≡ w
  unfolding store_chunk
  stored_there us i w u h =
      let there : read_chunk s.upload_id i w.chunks ≡ some (part i) = rw h at (u.chunks i) in
      rw (store_chunk, there) refl

  stored_new :
      (us : List ℕ) (i : ℕ) (w : World) (u : IsUnderway us w)
      → has_index i us ≡ false
      → (store_chunk no_faults now s.upload_id (part i) w (ok (seen us u.updated, i))).0
        ≡ record w {
          sessions = map (put_session (seen (with_chunk i us) now)) w.sessions;
          chunks = put_chunk s.upload_id i (part i) w.chunks;
        }
  unfolding store_chunk write_chunk register
  stored_new us i w u h =
      let absent : read_chunk s.upload_id i w.chunks ≡ none = rw h at (u.chunks i) in
      rw
        (
          store_chunk,
          absent,
          write_chunk,
          register,
          update_session-found (seen (with_chunk i us) now) w.sessions u.found,
        )
        refl

  chunk_added :
      (us : List ℕ) (i k : ℕ)
      → (if i == k then some (part i) else (if has_index k us then some (part k) else none))
        ≡ (if i == k || has_index k us then some (part k) else none)
  chunk_added us i k = elim (Bool-cases (i == k)) [
    | inl x ↦ rw x (ap (λ j. some (part j)) ((==_iff i k).0 x))
    | inr x ↦ rw x refl
  ]

  added-IsUnderway :
      (us : List ℕ) (i : ℕ) (w : World)
      → IsUnderway us w
      → i < s.total_chunks
      → IsUnderway (with_chunk i us) (record w {
        sessions = map (put_session (seen (with_chunk i us) now)) w.sessions;
        chunks = put_chunk s.upload_id i (part i) w.chunks;
      })
  added-IsUnderway us i w u below = record {
    updated = now;
    found = first_session-put (seen (with_chunk i us) now) w.sessions u.found;
    rising = with_chunk-Increasing s.total_chunks i us below u.rising;
    chunks = λ k.
        read_chunk-put s.upload_id i k (part i) w.chunks
        ∙ ap (λ o. if i == k then some (part i) else o) (u.chunks k)
        ∙ chunk_added us i k
        ∙ ap (λ b. if b then some (part k) else none)
            (sym (has_index-with_chunk s.total_chunks k i us u.rising));
    kept = u.kept;
  }

  -- One part more is there after it was sent.
  send-IsUnderway :
      (us : List ℕ) (i : ℕ) (w : World)
      → authorize_upload_session a auth s ≡ ok tt
      → i < s.total_chunks
      → IsUnderway us w
      → IsUnderway (with_chunk i us) ((send a auth s part now i w).0)
  unfolding send upload_chunk
  send-IsUnderway us i w allowed below u =
      let to_store =
        ap (λ r. (store_chunk no_faults now s.upload_id (part i) w r).0)
          (checked us i w u allowed below) in
      elim (Bool-cases (has_index i us)) [
        | inl x ↦
            subst (IsUnderway (with_chunk i us)) (sym (to_store ∙ stored_there us i w u x))
              (subst (λ vs. IsUnderway vs w) (sym (with_chunk-known i us x)) u)
        | inr x ↦
            subst (IsUnderway (with_chunk i us)) (sym (to_store ∙ stored_new us i w u x))
              (added-IsUnderway us i w u below)
      ]

  either_with :
      (us is : List ℕ) (i k : ℕ)
      → Increasing 0 s.total_chunks us
      → (has_index k us || has_index k (i ∷ is)) ≡ true
      → (has_index k (with_chunk i us) || has_index k is) ≡ true
  either_with us is i k h e = ground (arith, has_index-with_chunk s.total_chunks k i us h)

  pub send_all-IsUnderway :
      (order us : List ℕ) (w : World)
      → authorize_upload_session a auth s ≡ ok tt
      → All (λ i. i < s.total_chunks) order
      → IsUnderway us w
      → (vs : List ℕ) × IsUnderway vs (send_all a auth s part now order w)
        × ((k : ℕ) → (has_index k us || has_index k order) ≡ true → has_index k vs ≡ true)
  unfolding send_all
  send_all-IsUnderway [] us w allowed b u = (us, u, λ k e. ground (arith, e))
  send_all-IsUnderway (i ∷ is) us w allowed (b, bs) u =
      let (vs, v, all) =
        send_all-IsUnderway is (with_chunk i us) ((send a auth s part now i w).0) allowed bs
          (send-IsUnderway us i w allowed b u) in
      (vs, v, λ k e. all k (either_with us is i k u.rising e))
