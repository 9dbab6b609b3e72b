-- ===== src/Journal/Examples.antt =====
-- A journal of two operations, and each theorem on it at an input.
use yunxia.Prelude.{[], ◌∷◌, txt, none, some, ok, ◌≡◌, ◌≢◌, refl, arith, All}
use yunxia.Journal.{
  VfsOperation, Table, Outages, running, succeeded, failed, lookup, find_operation,
  create_operation, update_operation, write_back, mark, is_succeeded, is_ended, mark_running,
  mark_succeeded, mark_failed, retry_backoff, stable_error_code, sanitize_error_message, is_due,
  comes_first, insert, sort, due_rows, list_due, has_key, leased, finish_acquire, served,
  acquire_due,
}
use yunxia.Journal.Settled.{IsSettled}
use yunxia.Journal.Runs.{here, then_step, acquires, fails, Reaches-IsSettled}
use yunxia.Journal.Leases.{acquire_due_exclusive}

program : Unit {0}
unfolding lookup find_operation create_operation update_operation write_back mark is_succeeded
    is_ended mark_running mark_succeeded mark_failed retry_backoff stable_error_code
    sanitize_error_message is_due comes_first insert sort due_rows list_due has_key leased
    finish_acquire served acquire_due
program = tt

abbrev moved : VfsOperation
moved = record {
  id = 1;
  operation_type = txt "move";
  status = succeeded;
  source_node_id = some 4;
  target_parent_node_id = some 2;
  result_node_id = none;
  source_path_snapshot = txt "/a";
  target_path_snapshot = txt "/b/a";
  source_id_snapshot = some 1;
  driver_type_snapshot = txt "local";
  error_code = [];
  error_message = [];
  retry_count = 0;
  next_retry_at = none;
  locked_by = [];
  locked_until = none;
  created_by = some 1;
}

abbrev waiting : VfsOperation
waiting = record moved { id = 2; status = failed; retry_count = 1; next_retry_at = some 90 }

abbrev table : Table
table = record { operations = moved ∷ waiting ∷ []; next_id = 3 }

abbrev works : Outages
works = record { find = none; write = none; find_again = none }

-- An acquired operation is running until its lease ends.
abbrev acquired : VfsOperation
acquired = record waiting { status = running; locked_by = txt "w1"; locked_until = some 400 }

acquire_due_at_100 : (acquire_due 100 300 10 works (txt "w1") table).1 ≡ ok (acquired ∷ [])
unfolding program
acquire_due_at_100 = refl

moved-IsSettled : IsSettled 1 moved table
unfolding program
moved-IsSettled = record {
  ended = refl;
  given = omega arith;
  only = ((λ e. refl), ((λ e. absurd (omega (arith, e))), tt));
  found = refl;
}

abbrev after : Table
after = (mark_failed 120 works 1 none ((acquire_due 100 300 10 works (txt "w1") table).0)).0

Reaches-IsSettled_example : IsSettled 1 moved after
Reaches-IsSettled_example =
    Reaches-IsSettled 1 moved table after moved-IsSettled
      (then_step (then_step here (acquires 100 300 10 works (txt "w1"))) (fails 120 works 1 none))

-- A second worker is served nothing while the lease lasts.
acquire_due_exclusive_example :
    All (λ (r : VfsOperation). All (λ (a : VfsOperation). a.id ≢ r.id) (acquired ∷ [])) []
unfolding program
acquire_due_exclusive_example =
    acquire_due_exclusive 100 300 10 works (txt "w1") table 399 10 works refl (omega arith) refl
