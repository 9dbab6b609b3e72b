-- ===== src/Uploads/Runs.antt =====
-- Sequences of calls of `UploadService`, and what they keep of the sessions
-- (backend/internal/application/service/upload_service.go).
use yunxia.Prelude.{
  ℕ, ◌≤◌, ◌<◌, ◌+◌, ◌-◌, ◌/◌, List, All, Text, ◌==◌, if◌then◌else◌, ℤ, Option, none, some, Result,
  ◌≡◌, refl, sym, arith,
}
use mathlib.Core.Path.{subst}
use yunxia.Permission.{RequestAuth}
use yunxia.Acl.Authorizer.{Authorizer}
use yunxia.Uploads.{
  UploadSession, World, Faults, UploadChunkResponse, with_chunk, upload_chunk, cancel, leave_chunk,
}
use yunxia.Uploads.Increasing.{Increasing, with_chunk-Increasing}
use yunxia.Uploads.Commit.{Environment, UploadPart}
use yunxia.Uploads.Drivers.{finish}
use yunxia.Uploads.Init.{
  Options, Target, UploadInitRequest, total_chunks_of, new_session, init_local,
}
use yunxia.Uploads.Chunks
use yunxia.Uploads.Sessions.{find_session-All, update_session-All}
use yunxia.Uploads.Sessions.Endings.{finish-All}
use yunxia.Uploads.Sessions.Starts.{init_local-All, cancel-All}

-- The indices that have arrived rise, and are indices of chunks; there is at least one chunk.
unfoldable pub IsWell : UploadSession → Type 0
IsWell s = Increasing 0 s.total_chunks s.uploaded_chunks × (1 ≤ s.total_chunks)

unfoldable pub AllWell : World → Type 0
AllWell w = All IsWell w.sessions

at_least_one : (n : ℕ) → 1 ≤ (if n == 0 then 1 else n)
at_least_one n = ground arith

new_session-IsWell :
    (o : Options) (upload_id : Text) (now user_id : ℕ) (target : Target) (req : UploadInitRequest)
    → IsWell (new_session o upload_id now user_id target req)
unfolding IsWell new_session total_chunks_of
new_session-IsWell o upload_id now user_id target req =
    (tt, at_least_one ((req.file_size + o.default_chunk_size - 1) / o.default_chunk_size))

register-IsWell :
    (s : UploadSession) (i now : ℕ)
    → i < s.total_chunks
    → IsWell s
    → IsWell (record s { uploaded_chunks = with_chunk i s.uploaded_chunks; updated_at = now })
unfolding IsWell
register-IsWell s i now b (h, k) = (with_chunk-Increasing s.total_chunks i s.uploaded_chunks b h, k)

leave_chunk-sessions :
    (id : Text) (i : ℕ) (left : Option Text) (w : World)
    → (leave_chunk id i left w).sessions ≡ w.sessions
leave_chunk-sessions id i none w = refl
leave_chunk-sessions id i (some left) w = refl

IsUpload-AllWell :
    (a : Option Authorizer) (auth : Option RequestAuth) (f : Faults) (now : ℕ) (id : Text)
    (index : ℤ) (content : Text) (w u : World) (r : Result UploadChunkResponse)
    → Chunks.IsUpload a auth f now id index content w u r
    → AllWell w
    → AllWell u
unfolding AllWell
IsUpload-AllWell a auth f now id index content w u r (Chunks.stored session i ss ac absent d y e)
      h =
    let p = find_session-All IsWell f id w.sessions h ac.found in
    update_session-All IsWell f _ w.sessions (register-IsWell session i now ac.below p) h e
IsUpload-AllWell a auth f now id index content w u r (Chunks.torn session i e left ac absent d x)
      h =
    subst (All IsWell) (sym (leave_chunk-sessions id i left w)) h
IsUpload-AllWell a auth f now id index content w u r _ h = h

-- One call, whoever makes it and whatever fails.
pub data Step : World → World → Type 0 where
  inits :
      (e : Environment) (f : Faults) (o : Options) (upload_id : Text) (now user_id : ℕ)
      (target : Target) (req : UploadInitRequest) {w : World}
      → Step w ((init_local e f o upload_id now user_id target req w).0)
  uploads :
      (a : Option Authorizer) (auth : Option RequestAuth) (f : Faults) (now : ℕ) (id : Text)
      (index : ℤ) (content : Text) {w : World}
      → Step w ((upload_chunk a auth f now id index content w).0)
  finishes :
      (a : Option Authorizer) (auth : Option RequestAuth) (e : Environment) (f : Faults) (id : Text)
      (parts : List UploadPart) {w : World}
      → Step w ((finish a auth e f id parts w).0)
  cancels :
      (a : Option Authorizer) (auth : Option RequestAuth) (f : Faults) (id : Text) {w : World}
      → Step w ((cancel a auth f id w).0)

pub data Reaches (w : World) : World → Type 0 where
  here : Reaches w w
  then_step : {u v : World} → Reaches w u → Step u v → Reaches w v

Step-AllWell : (w : World) {u : World} → Step w u → AllWell w → AllWell u
unfolding AllWell
Step-AllWell w (inits e f o upload_id now user_id target req) h =
    init_local-All IsWell e f o upload_id now user_id target req w
      (new_session-IsWell o upload_id now user_id target req) h
Step-AllWell w (uploads a auth f now id index content) h =
    IsUpload-AllWell a auth f now id index content w _ _
      (Chunks.upload_chunk-IsUpload a auth f now id index content w) h
Step-AllWell w (finishes a auth e f id parts) h = finish-All IsWell a auth e f id parts w h
Step-AllWell w (cancels a auth f id) h = cancel-All IsWell a auth f id w h

-- Whatever is called in whatever order, and whatever fails: every session has at least one chunk, and
-- the indices of the chunks that it has seen rise strictly and are below their number.
pub Reaches-AllWell : (w u : World) → AllWell w → Reaches w u → AllWell u
Reaches-AllWell w u h here = h
Reaches-AllWell w u h (then_step r s) = Step-AllWell _ s (Reaches-AllWell w _ h r)
