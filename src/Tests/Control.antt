-- ===== src/Tests/Control.antt =====
-- The executor, the control plane and the tool calls on concrete inputs.
use snowglobe.Prelude.{String, ◌≡◌, refl, true, false, none, some, [], ◌∷◌}
use snowglobe.Exec.{
  Result, ok, err, os_error, still_running, suppress_unavailable, forgive_unavailable,
}
use snowglobe.Python.{pos}
use snowglobe.Broker.Records.{RequestView}
use snowglobe.Broker.State.{Broker, Environment}
use snowglobe.Broker.Methods
use snowglobe.Broker.History.{registers}
use snowglobe.Broker.Registered.{Registered}
use snowglobe.Control.Executor.{
  Executor, Awaits, on_broker, meanwhile, notice_expiry, try_run, run_task, wait_for_work,
  fail_after, run_ended, run_hanging, abandon, schedule, submit_query,
}
use snowglobe.Control.Contracts.{
  accepted, rejected, no_reason, invalid_request, QueryReceipt, new_receipt, new_status_receipt,
  is_request_id, is_id_code, all_id_codes, string_length, is_sql, is_consistent,
}
use snowglobe.Control.Plane.{
  rejected_receipt, invalid_status_receipt, receipt_of, status_receipt_of, submit, status,
}
use snowglobe.Control.Gateway.{
  CallTool, text, integer, submission, item, keys_within, seconds, submit_values, submit_arguments,
  status_value, status_argument, call_submit, call_status, dispatch, failure, call_tool,
}
use snowglobe.Control.Settled.{IsSettled, run_task-IsSettled}
use snowglobe.Control.Receipts.{IsClosed, call_tool-IsClosed}
use snowglobe.Control.Accepted.{submit-accepted}
use snowglobe.Tests.Broker.{program, ticking, empty, empty-IsWellFormed}

unfoldable pub control_program : Unit {0}
unfolding program suppress_unavailable forgive_unavailable on_broker meanwhile notice_expiry
    wait_for_work try_run fail_after run_ended run_hanging run_task abandon schedule submit_query
    new_receipt new_status_receipt is_request_id is_id_code all_id_codes string_length is_sql
    is_consistent rejected_receipt invalid_status_receipt receipt_of status_receipt_of submit status
    item keys_within seconds submit_values submit_arguments status_value status_argument call_submit
    call_status dispatch failure call_tool
control_program = tt

abbrev pub long_token : String
long_token = "abcdefghijklmnopqrstuvwx"

abbrev pub urlsafe : Environment
urlsafe = record ticking { token = λ n. long_token }

abbrev pub fresh : Executor
fresh = record { broker = empty; tasks = []; closed = false }

abbrev pub admit : String → Result String
admit sql = ok "SELECT 1 LIMIT 51"

abbrev pub call : CallTool
call = record {
  name = "submit_read_query";
  arguments = some (("sql", text "SELECT 1") ∷ ("requested_ttl", integer (pos 60)) ∷ []);
}

abbrev receipt : QueryReceipt
receipt = record {
  status = accepted;
  request_id = long_token;
  reason_code = no_reason;
  governed_sql = some "SELECT 1 LIMIT 51";
}

call_returns :
    (call_tool urlsafe admit (ok tt) long_token long_token call fresh).0 ≡ ok (submission receipt)
unfolding control_program
call_returns = refl

-- A time to live that is no number is rejected.
call_rejects :
    (call_tool urlsafe admit
      (ok tt)
      long_token
      long_token
      (record call { arguments = some (("sql", text "SELECT 1") ∷ []) })
      fresh).0
    ≡ ok (
        submission (record {
          status = rejected;
          request_id = long_token;
          reason_code = invalid_request;
          governed_sql = none;
        }))
unfolding control_program
call_rejects = refl

call_tool-IsClosed_example :
    IsClosed (call_tool urlsafe admit (ok tt) long_token long_token call fresh).0
unfolding control_program
call_tool-IsClosed_example =
    call_tool-IsClosed urlsafe admit (ok tt) long_token long_token call fresh refl

submit-accepted_example :
    (v : RequestView) × (long_token ≡ v.request_id)
    × (sql : String) × (some "SELECT 1 LIMIT 51" ≡ some sql)
    × (ok "SELECT 1 LIMIT 51" ≡ ok sql)
    × (false ≡ false)
    × Registered urlsafe empty v
        (submit urlsafe long_token (ok "SELECT 1 LIMIT 51") (ok tt) (pos 60) fresh).1.broker
unfolding control_program
submit-accepted_example =
    submit-accepted urlsafe long_token (ok "SELECT 1 LIMIT 51") (ok tt) (pos 60) fresh receipt
      empty-IsWellFormed refl refl

-- A request whose work fails after it has registered a cursor.
abbrev failing : Awaits
failing = record {
  before = registers "t" 4 ∷ [];
  expiry_first = true;
  between = [];
  outcome = some (err os_error);
  after = [];
}

abbrev one_pending : Broker
one_pending = (Methods.submit ticking (pos 50) empty).1

run_task-IsSettled_example :
    ((run_task ticking "t" failing one_pending).0 ≡ ok tt)
    × IsSettled "t" (run_task ticking "t" failing one_pending).1
run_task-IsSettled_example =
    run_task-IsSettled ticking (λ n. refl) "t" failing one_pending (err os_error) refl

-- Work that never ends leaves its request pending, and its run does not return.
hanging :
    (run_task ticking "t" (record failing { outcome = none }) one_pending).0 ≡ err still_running
unfolding control_program
hanging = refl
