-- ===== src/Journal.antt =====
-- The journal of virtual file system operations
-- (backend/internal/application/service/vfs_operation_journal_service.go over
-- backend/internal/infrastructure/persistence/gorm/vfs_operation_repo_impl.go and
-- backend/internal/domain/entity/vfs_operation.go). A call takes the time, the faults of the database
-- and the table, and returns the new table with its result. A transaction is one step: a worker that
-- comes meanwhile skips the locked rows, and is served after it.
mod Lists
pub mod Settled
pub mod Runs
pub mod Leases
pub mod Retries
mod Examples
use yunxia.Prelude.{
  ℕ, ◌+◌, ◌*◌, List, [], ◌∷◌, ◌++◌, map, Bool, true, false, not, ◌&&◌, ◌||◌, Text, txt, str_eq,
  is_empty, ◌==◌, ltb, leb, if◌then◌else◌, keep, take, any, Option, none, some, Result, ok, err,
  Error, not_found, trim_space, metadata_vfs_mutation_sync_failed, metadata_vfs_commit_failed,
  vfs_sync_conflict, source_operation_unsupported, source_driver_unsupported,
}

-- `VFSOperationStatus…`
pub data OperationStatus : Type 0 where
  pending running succeeded failed compensating canceled : OperationStatus

-- `entity.VFSOperation`; its payload, and the times of creation and update, are left out. Times are in
-- seconds.
pub record VfsOperation : Type 0 where
  pub id : ℕ
  pub operation_type : Text
  pub status : OperationStatus
  pub source_node_id : Option ℕ
  pub target_parent_node_id : Option ℕ
  pub result_node_id : Option ℕ
  pub source_path_snapshot : Text
  pub target_path_snapshot : Text
  pub source_id_snapshot : Option ℕ
  pub driver_type_snapshot : Text
  pub error_code : Text
  pub error_message : Text
  pub retry_count : ℕ
  pub next_retry_at : Option ℕ
  pub locked_by : Text
  pub locked_until : Option ℕ
  pub created_by : Option ℕ

-- The table with its next key.
pub record Table : Type 0 where
  pub operations : List VfsOperation
  pub next_id : ℕ

-- The error of each query of a call; none if it works.
pub record Outages : Type 0 where
  pub find : Option Error
  pub write : Option Error
  pub find_again : Option Error

abbrev or_outage {ℓ} : {A : Type ℓ} → Option Error → Result A → Result A
or_outage none r = r
or_outage (some e) r = err e

-- The row with a key.
pub lookup : ℕ → List VfsOperation → Result VfsOperation
lookup id [] = err not_found
lookup id (o ∷ os) = let rest = lookup id os in if o.id == id then ok o else rest

-- `FindByID`
find_operation : Option Error → Table → ℕ → Result VfsOperation
find_operation outage t id = or_outage outage (lookup id t.operations)

-- `Create`: the row gets the next key.
pub create_operation : Outages → VfsOperation → Table → Table × Result VfsOperation
create_operation f o t =
    let row = record o { id = t.next_id } in
    elim f.write [
      | some e ↦ (t, err e)
      | none ↦ (record { operations = t.operations ++ row ∷ []; next_id = t.next_id + 1 }, ok row)
    ]

abbrev put : VfsOperation → VfsOperation → VfsOperation
put new o = if o.id == new.id then new else o

-- `Update`
update_operation : Outages → VfsOperation → Table → Result Table
update_operation f new t = or_outage f.write (
    if any (λ o. o.id == new.id) t.operations
    then ok (record t { operations = map (put new) t.operations })
    else err not_found)

-- The end of the three marks: write, and read again.
write_back : Outages → ℕ → VfsOperation → Table → Table × Result VfsOperation
unfolding update_operation find_operation
write_back f id new t = elim (update_operation f new t) [
  | err e ↦ (t, err e)
  | ok u ↦ (u, find_operation f.find_again u id)
]

-- What the three marks share: an operation in an end state is returned as it is.
pub mark :
    Outages
    → ℕ
    → (VfsOperation → Bool)
    → (VfsOperation → VfsOperation)
    → Table
    → Table × Result VfsOperation
unfolding write_back find_operation
mark f id ended edit t = elim (find_operation f.find t id) [
  | err e ↦ (t, err e)
  | ok o ↦ if ended o then (t, ok o) else write_back f id (edit o) t
]

abbrev pub is_success : OperationStatus → Bool
is_success pending = false
is_success running = false
is_success succeeded = true
is_success failed = false
is_success compensating = false
is_success canceled = false

abbrev pub is_end : OperationStatus → Bool
is_end pending = false
is_end running = false
is_end succeeded = true
is_end failed = false
is_end compensating = false
is_end canceled = true

pub is_succeeded : VfsOperation → Bool
is_succeeded o = is_success o.status

pub is_ended : VfsOperation → Bool
is_ended o = is_end o.status

abbrev worker_or_default : Text → Text
worker_or_default worker = if is_empty worker then txt "vfs-operation-worker" else worker

-- `MarkRunning`
pub mark_running :
    (now lock_duration : ℕ) → Outages → ℕ → Text → Table → Table × Result VfsOperation
unfolding mark is_ended
mark_running now lock_duration f id worker = mark f id is_ended (λ o. record o {
  status = running;
  locked_by = worker_or_default worker;
  locked_until = some (now + lock_duration);
})

-- `MarkSucceeded`
pub mark_succeeded : Outages → ℕ → Table → Table × Result VfsOperation
unfolding mark is_succeeded
mark_succeeded f id = mark f id is_succeeded (λ o. record o {
  status = succeeded;
  error_code = [];
  error_message = [];
  next_retry_at = none;
  locked_by = [];
  locked_until = none;
})

-- `vfsOperationRetryBackoff`, in seconds.
unfoldable pub retry_backoff : ℕ → ℕ
retry_backoff n =
    if leb n 1 then 60 else if n == 2 then 5 * 60 else if n == 3 then 30 * 60 else 2 * 3600

-- `stableVFSOperationErrorCode` of an error, without a preferred code.
pub stable_error_code : Option Error → Text
stable_error_code none = []
stable_error_code (some metadata_vfs_mutation_sync_failed) = txt "METADATA_VFS_MUTATION_SYNC_FAILED"
stable_error_code (some metadata_vfs_commit_failed) = txt "METADATA_VFS_COMMIT_FAILED"
stable_error_code (some vfs_sync_conflict) = txt "VFS_SYNC_CONFLICT"
stable_error_code (some source_operation_unsupported) = txt "SOURCE_OPERATION_UNSUPPORTED"
stable_error_code (some source_driver_unsupported) = txt "SOURCE_OPERATION_UNSUPPORTED"
stable_error_code (some e) = txt "VFS_OPERATION_FAILED"

-- `sanitizeVFSOperationErrorMessage`
pub sanitize_error_message : Text → Option Error → Text
sanitize_error_message code none = []
sanitize_error_message code (some e) =
    if str_eq code (txt "METADATA_VFS_MUTATION_SYNC_FAILED")
    then txt "metadata vfs mutation sync failed"
    else if str_eq code (txt "METADATA_VFS_COMMIT_FAILED")
    then txt "metadata vfs commit failed"
    else if str_eq code (txt "VFS_SYNC_CONFLICT")
    then txt "vfs sync conflict"
    else if str_eq code (txt "SOURCE_OPERATION_UNSUPPORTED")
    then txt "source operation unsupported"
    else txt "vfs operation failed"

-- `MarkFailed`
pub mark_failed : (now : ℕ) → Outages → ℕ → Option Error → Table → Table × Result VfsOperation
unfolding mark is_ended
mark_failed now f id e = mark f id is_ended (λ o. record o {
  status = failed;
  error_code = stable_error_code e;
  error_message = sanitize_error_message (stable_error_code e) e;
  retry_count = o.retry_count + 1;
  next_retry_at = some (now + retry_backoff (o.retry_count + 1));
  locked_by = [];
  locked_until = none;
})

-- NULL, or not after the time.
abbrev not_after : ℕ → Option ℕ → Bool
not_after now none = true
not_after now (some t) = leb t now

abbrev may_be_due : OperationStatus → Bool
may_be_due pending = true
may_be_due failed = true
may_be_due running = true
may_be_due succeeded = false
may_be_due compensating = false
may_be_due canceled = false

-- `applyVFSOperationDueFilter` as the service calls it.
pub is_due : ℕ → VfsOperation → Bool
is_due now o =
    may_be_due o.status && (not_after now o.next_retry_at && not_after now o.locked_until)

abbrev page_limit : ℕ → ℕ
page_limit limit = if limit == 0 || ltb 200 limit then 100 else limit

-- `next_retry_at asc NULLS FIRST, id asc`
comes_first : VfsOperation → VfsOperation → Bool
comes_first a b = elim a.next_retry_at [
  | none ↦ elim b.next_retry_at [ none ↦ leb a.id b.id | some y ↦ true ]
  | some x ↦ elim b.next_retry_at [ none ↦ false | some y ↦ ltb x y || x == y && leb a.id b.id ]
]

insert : VfsOperation → List VfsOperation → List VfsOperation
insert o [] = o ∷ []
insert o (p ∷ ps) = let rest = insert o ps in if comes_first o p then o ∷ p ∷ ps else p ∷ rest

pub sort : List VfsOperation → List VfsOperation
sort [] = []
sort (o ∷ os) = insert o (sort os)

due_rows : (now limit : ℕ) → List VfsOperation → List VfsOperation
due_rows now limit os = take (page_limit limit) (sort (keep (is_due now) os))

-- `ListDue`
pub list_due : (now limit : ℕ) → Outages → Table → Result (List VfsOperation)
list_due now limit f t = or_outage f.find (ok (due_rows now limit t.operations))

has_key : ℕ → List VfsOperation → Bool
has_key id os = any (λ o. o.id == id) os

abbrev lease : List VfsOperation → Text → ℕ → VfsOperation → VfsOperation
lease due worker until o =
    if has_key o.id due
    then record o { status = running; locked_by = worker; locked_until = some until }
    else o

leased : List VfsOperation → Text → ℕ → Table → Table
leased due worker until t = record t { operations = map (lease due worker until) t.operations }

finish_acquire : Table → Table → Result (List VfsOperation) → Table × Result (List VfsOperation)
finish_acquire t u (err e) = (t, err e)
finish_acquire t u (ok acquired) = (u, ok acquired)

-- With no rows due the transaction ends after its first query.
served : Outages → List VfsOperation → List VfsOperation → Result (List VfsOperation)
served f [] acquired = ok []
served f (o ∷ os) acquired = or_outage f.write (or_outage f.find_again (ok acquired))

-- `AcquireDue`: the rows that are due get a lease, and are read again; on a fault the transaction
-- leaves the table.
pub acquire_due :
    (now lock_duration limit : ℕ) → Outages → Text → Table → Table × Result (List VfsOperation)
unfolding due_rows leased has_key finish_acquire served
acquire_due now lock_duration limit f worker t =
    let due = due_rows now limit t.operations in
    let u = leased due (worker_or_default worker) (now + lock_duration) t in
    let acquired = sort (keep (λ o. has_key o.id due) u.operations) in
    finish_acquire t u (or_outage f.find (served f due acquired))
