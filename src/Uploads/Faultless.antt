-- ===== src/Uploads/Faultless.antt =====
-- Calls during which nothing goes wrong (`UploadChunk` and `Finish` of
-- backend/internal/application/service/upload_service.go).
use yunxia.Prelude.{
  ℕ, ◌+◌, ◌≤◌, ◌<◌, zero, suc, List, [], ◌∷◌, ◌++◌, map, true, false, not, ◌&&◌, any, keep, Text,
  str_eq, str_eq_refl, ◌==◌, if◌then◌else◌, none, some, ok, ◌≡◌, refl, sym, ap, ◌∙◌, inl, inr,
  Bool-cases, arith,
}
use mathlib.Core.List.{append-nil, append_assoc}
use yunxia.Uploads.{
  UploadSession, ChunkFile, Faults, first_session, put_session, update_session, read_chunk,
  put_chunk,
}
use yunxia.Uploads.Finish.{copy_chunks}

-- Nothing goes wrong.
abbrev pub no_faults : Faults
no_faults = record {
  find = none;
  find_active = none;
  save = none;
  delete = none;
  make_dir = none;
  unreadable = λ i. false;
  write_chunk = none;
  survives = λ c. false;
  unseen = false;
  create_file = none;
  copy = λ i. none;
  close = none;
  hash = none;
  stat = none;
}

-- The parts from an index on, one behind the other.
unfoldable pub assembled : (ℕ → Text) → ℕ → ℕ → Text
assembled part i zero = []
assembled part i (suc n) = part i ++ assembled part (i + 1) n

read_chunk-keep :
    (id : Text) (i k : ℕ) (cs : List ChunkFile)
    → (i == k) ≡ false
    → read_chunk id k (keep (λ c. not (str_eq c.upload_id id && c.index == i)) cs)
      ≡ read_chunk id k cs
unfolding read_chunk
read_chunk-keep id i k [] h = refl
read_chunk-keep id i k (c ∷ cs) h = ground (arith, read_chunk-keep id i k cs h)

pub read_chunk-put :
    (id : Text) (i k : ℕ) (content : Text) (cs : List ChunkFile)
    → read_chunk id k (put_chunk id i content cs)
      ≡ (if i == k then some content else read_chunk id k cs)
unfolding read_chunk put_chunk
read_chunk-put id i k content cs = elim (Bool-cases (i == k)) [
  | inl x ↦ rw (str_eq_refl id, x) refl
  | inr x ↦ rw (str_eq_refl id, x) (read_chunk-keep id i k cs x)
]

pub first_session-put :
    (new : UploadSession) (ss : List UploadSession) {s : UploadSession}
    → first_session new.upload_id ss ≡ ok s
    → first_session new.upload_id (map (put_session new) ss) ≡ ok new
unfolding first_session
first_session-put new [] h = absurd (cc)
first_session-put new (t ∷ ts) h = elim (Bool-cases (str_eq t.upload_id new.upload_id)) [
  | inl x ↦ rw (x, str_eq_refl new.upload_id) refl
  | inr x ↦ rw (x, x) (first_session-put new ts (rw x at h))
]

pub any-found :
    (id : Text) (ss : List UploadSession) {s : UploadSession}
    → first_session id ss ≡ ok s
    → any (λ s. str_eq s.upload_id id) ss ≡ true
unfolding first_session
any-found id [] h = absurd (cc)
any-found id (t ∷ ts) h = elim (Bool-cases (str_eq t.upload_id id)) [
  | inl x ↦ rw x refl
  | inr x ↦ rw x (any-found id ts (rw x at h))
]

pub update_session-found :
    (new : UploadSession) (ss : List UploadSession) {s : UploadSession}
    → first_session new.upload_id ss ≡ ok s
    → update_session no_faults new ss ≡ ok (map (put_session new) ss)
unfolding update_session
update_session-found new ss h = rw (any-found new.upload_id ss h) refl

pub copy_chunks-assembled :
    (id : Text) (cs : List ChunkFile) (part : ℕ → Text) (n i : ℕ) (out : Text)
    → ((k : ℕ) → i ≤ k → k < i + n → read_chunk id k cs ≡ some (part k))
    → copy_chunks no_faults id cs n i out ≡ (out ++ assembled part i n, ok tt)
unfolding copy_chunks assembled
copy_chunks-assembled id cs part zero i out h = ap (λ t. (t, ok tt)) (sym (append-nil out))
copy_chunks-assembled id cs part (suc n) i out h =
    rw (copy_chunks, h i (omega arith) (omega arith))
      (copy_chunks-assembled id cs part n (i + 1) (out ++ part i)
          (λ k a b. h k (omega arith) (omega arith))
        ∙ ap (λ t. (t, ok tt)) (append_assoc out (part i) (assembled part (i + 1) n)))
