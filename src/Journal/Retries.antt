-- ===== src/Journal/Retries.antt =====
-- What a failure does to an operation, and when it is due again
-- (`MarkFailed` in backend/internal/application/service/vfs_operation_journal_service.go).
use yunxia.Prelude.{ℕ, ◌+◌, [], Option, none, some, Error}
use yunxia.Journal.{VfsOperation, failed, retry_backoff, stable_error_code, sanitize_error_message}

-- The failed operation, as it is written.
pub failed_at : ℕ → Option Error → VfsOperation → VfsOperation
failed_at now e o = record o {
  status = failed;
  error_code = stable_error_code e;
  error_message = sanitize_error_message (stable_error_code e) e;
  retry_count = o.retry_count + 1;
  next_retry_at = some (now + retry_backoff (o.retry_count + 1));
  locked_by = [];
  locked_until = none;
}
