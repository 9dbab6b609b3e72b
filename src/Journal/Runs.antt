-- ===== src/Journal/Runs.antt =====
-- Sequences of calls of the journal, and that they leave what has succeeded
-- (backend/internal/application/service/vfs_operation_journal_service.go).
use yunxia.Prelude.{
  ℕ, ◌+◌, List, [], ◌∷◌, true, false, ◌==◌, ==_iff, Text, Option, Result, ok, err, Error, ◌≡◌, ◌≢◌,
  refl, ap, All, inl, inr, Bool-cases,
}
use yunxia.Journal.{
  VfsOperation, Table, Outages, OperationStatus, pending, running, succeeded, failed, compensating,
  canceled, create_operation, is_success, is_end, is_succeeded, is_ended, mark_running,
  mark_succeeded, mark_failed, is_due, due_rows, has_key, lease, leased, finish_acquire,
  acquire_due, page_limit, worker_or_default,
}
use yunxia.Journal.Lists.{sort-All, take-All, keep-All, every}
use yunxia.Journal.Settled.{
  IsSettled, Spares, map-IsSettled, create_operation-IsSettled, mark-IsSettled,
}

success_only : (s : OperationStatus) → is_success s ≡ true → s ≡ succeeded
success_only pending h = absurd (cc)
success_only running h = absurd (cc)
success_only succeeded h = refl
success_only failed h = absurd (cc)
success_only compensating h = absurd (cc)
success_only canceled h = absurd (cc)

is_succeeded-is_ended : (o : VfsOperation) → is_succeeded o ≡ true → is_ended o ≡ true
unfolding is_succeeded is_ended
is_succeeded-is_ended o h = ap is_end (success_only o.status h)

succeeded_not_due : (now : ℕ) (o : VfsOperation) → is_succeeded o ≡ true → is_due now o ≡ false
unfolding is_succeeded is_due
succeeded_not_due now o h = rw (success_only o.status h) refl

has_key_away : (id : ℕ) (os : List VfsOperation) → All (λ r. r.id ≢ id) os → has_key id os ≡ false
unfolding has_key
has_key_away id [] _ = refl
has_key_away id (r ∷ os) (h, hs) = elim (Bool-cases (r.id == id)) [
  | inl a ↦ absurd (h ((==_iff _ _).0 a))
  | inr a ↦ rw a (has_key_away id os hs)
]

-- A settled operation is not among the rows that are due.
due_rows_away :
    (id : ℕ) (o : VfsOperation) (now limit : ℕ) (t : Table)
    → IsSettled id o t
    → has_key id (due_rows now limit t.operations) ≡ false
unfolding due_rows
due_rows_away id o now limit t i = has_key_away id (due_rows now limit t.operations) (
    take-All (λ r. r.id ≢ id) (page_limit limit) _
      (sort-All (λ r. r.id ≢ id) _
        (keep-All (λ r. r.id ≢ id) (is_due now) t.operations (not_due t.operations i.only))))
  where
    not_due :
        (os : List VfsOperation)
        → All (λ r. r.id ≡ id → r ≡ o) os
        → All (λ r. is_due now r ≡ true → r.id ≢ id) os
    not_due [] _ = tt
    not_due (r ∷ os) (h, hs) = (
      (λ d e. absurd (cc (ap (is_due now) (h e), d, succeeded_not_due now o i.ended))),
      not_due os hs,
    )

lease-Spares :
    (id : ℕ) (due : List VfsOperation) (worker : Text) (until : ℕ) (r : VfsOperation)
    → has_key id due ≡ false
    → Spares id (lease due worker until) r
lease-Spares id due worker until r h = elim (Bool-cases (has_key r.id due)) [
  | inr a ↦ rw a (refl, λ e. refl)
  | inl a ↦ rw a (refl, λ e. absurd (cc (ap (λ k. has_key k due) e, a, h)))
]

finish_acquire-IsSettled :
    (id : ℕ) (o : VfsOperation) (t u : Table) (r : Result (List VfsOperation))
    → IsSettled id o t
    → IsSettled id o u
    → IsSettled id o ((finish_acquire t u r).0)
unfolding finish_acquire
finish_acquire-IsSettled id o t u (err e) i j = i
finish_acquire-IsSettled id o t u (ok os) i j = j

acquire_due-IsSettled :
    (id : ℕ) (o : VfsOperation) (now lock_duration limit : ℕ) (f : Outages) (worker : Text)
    (t : Table)
    → IsSettled id o t
    → IsSettled id o ((acquire_due now lock_duration limit f worker t).0)
unfolding acquire_due leased
acquire_due-IsSettled id o now lock_duration limit f worker t i =
    let due = due_rows now limit t.operations in
    finish_acquire-IsSettled id o t (leased due (worker_or_default worker) (now + lock_duration) t)
      _ i
      (map-IsSettled id o (lease due (worker_or_default worker) (now + lock_duration)) t i (
        every (Spares id (lease due (worker_or_default worker) (now + lock_duration))) t.operations
          (λ r.
            lease-Spares id due (worker_or_default worker) (now + lock_duration) r
              (due_rows_away id o now limit t i))))

-- A call of the journal, at any time and with any faults, or the record of a new operation.
pub data Step (t : Table) : Table → Type 0 where
  records : (f : Outages) (o : VfsOperation) → Step t ((create_operation f o t).0)
  runs :
      (now lock_duration : ℕ) (f : Outages) (id : ℕ) (worker : Text)
      → Step t ((mark_running now lock_duration f id worker t).0)
  succeeds : (f : Outages) (id : ℕ) → Step t ((mark_succeeded f id t).0)
  fails :
      (now : ℕ) (f : Outages) (id : ℕ) (e : Option Error) → Step t ((mark_failed now f id e t).0)
  acquires :
      (now lock_duration limit : ℕ) (f : Outages) (worker : Text)
      → Step t ((acquire_due now lock_duration limit f worker t).0)

pub data Reaches (t : Table) : Table → Type 0 where
  here : Reaches t t
  then_step : {u v : Table} → Reaches t u → Step u v → Reaches t v

Step-IsSettled :
    (id : ℕ) (o : VfsOperation) (t : Table) {u : Table}
    → Step t u
    → IsSettled id o t
    → IsSettled id o u
unfolding mark_running mark_succeeded mark_failed
Step-IsSettled id o t (records f new) i = create_operation-IsSettled id o f new t i
Step-IsSettled id o t (runs now lock_duration f k worker) i =
    mark-IsSettled id o f k is_ended _ t (is_succeeded-is_ended o i.ended) (λ r. refl) i
Step-IsSettled id o t (succeeds f k) i =
    mark-IsSettled id o f k is_succeeded _ t i.ended (λ r. refl) i
Step-IsSettled id o t (fails now f k e) i =
    mark-IsSettled id o f k is_ended _ t (is_succeeded-is_ended o i.ended) (λ r. refl) i
Step-IsSettled id o t (acquires now lock_duration limit f worker) i =
    acquire_due-IsSettled id o now lock_duration limit f worker t i

-- An operation that has succeeded (the only one in the table with its key, which was given out) is
-- left exactly as it is by every sequence of calls.
pub Reaches-IsSettled :
    (id : ℕ) (o : VfsOperation) (t u : Table) → IsSettled id o t → Reaches t u → IsSettled id o u
Reaches-IsSettled id o t u i here = i
Reaches-IsSettled id o t u i (then_step r s) =
    Step-IsSettled id o _ s (Reaches-IsSettled id o t _ i r)
