-- ===== src/Cli/Transparent.antt =====
-- A shell command against the control plane that answers it.
use snowglobe.Prelude.{
  String, ◌≡◌, refl, ap, true, false, not, Option, none, ◌||◌, Bool-cases, inl, inr,
}
use snowglobe.Exec.{Result, ok, Exec}
use snowglobe.Python.{ℤ}
use snowglobe.Broker.State.{Environment}
use snowglobe.Control.Contracts.{
  QueryReceipt, ReasonCode, QueryLifecycleStatus, new_receipt, is_sql, is_consistent, is_request_id,
}
use snowglobe.Control.Executor.{Executor}
use snowglobe.Control.Plane.{rejected_receipt, invalid_status_receipt}
use snowglobe.Control.Gateway.{
  CallTool, Receipt, submission, lifecycle, as_submission, as_lifecycle, Dict, call_submit,
  call_status, dispatch, call_tool, submit_arguments, status_argument,
}
use snowglobe.Control.Json.{Pydantic, server_call_tool}
use snowglobe.Control.Receipts.{call_tool-IsClosed}
use snowglobe.Cli.Command.{
  Command, submit, status, submit_call, status_call, run_submit, run_status, run, is_empty,
  is_positive, requested_ttl,
}
use snowglobe.Cli.Answers.{
  submit_arguments-submit_call, status_argument-status_call, submission_of-receipt_result,
  lifecycle_of-receipt_result, submit_call-IsSubmission, status_call-IsLifecycle,
}
use snowglobe.Cli.Closed.{new_status_receipt-ok, new_status_receipt-err}

-- The call that a command makes for the SQL on its input.
abbrev pub call_of : Command → String → CallTool
call_of (submit ttl) sql = submit_call sql ttl
call_of (status id) sql = status_call id

-- A receipt with a token that has the form of a request id can be made.
rejected_receipt-ok :
    (token : String)
    → is_request_id token ≡ true
    → (q : QueryReceipt) × (rejected_receipt token ReasonCode.invalid_request ≡ ok q)
unfolding rejected_receipt new_receipt is_sql is_consistent
rejected_receipt-ok token h = rw (h, rejected_receipt, new_receipt) (_, refl)

module _ (py : Pydantic) (env : Environment) (admit : String → Result String)
    (created : Result (Unit {0})) (token again : String) (s : Executor) where
  -- A receipt of the tool itself is the answer.
  call_tool-ok :
      (call : CallTool) (r : Receipt)
      → dispatch env admit created token call s ≡ (ok r, s)
      → call_tool env admit created token again call s ≡ (ok r, s)
  unfolding call_tool
  call_tool-ok call r h =
      let e : (dispatch env admit created token call s).0 ≡ ok r = ap (λ p. p.0) h in
      rw (e, call_tool) (ap (λ p. (ok r, p.1)) h)

  module _ (h : is_request_id token ≡ true) (k : is_request_id again ≡ true) where
    abbrev invoke : CallTool → Exec Executor (Option Dict)
    invoke = server_call_tool py env admit created token again

    rejected_submit-eq-call_tool :
        (sql : String) (ttl : ℤ)
        → submit_arguments (submit_call sql ttl).arguments ≡ none
        → (as_submission (rejected_receipt token ReasonCode.invalid_request), s)
          ≡ call_tool env admit created token again (submit_call sql ttl) s
    unfolding dispatch call_submit
    rejected_submit-eq-call_tool sql ttl e =
        let (q, f) = rejected_receipt-ok token h in
        let answer : dispatch env admit created token (submit_call sql ttl) s
            ≡ (ok (submission q), s) =
          rw (e, f, dispatch, call_submit) refl in
        rw (f, call_tool-ok (submit_call sql ttl) (submission q) answer) refl

    run_submit-eq-call_tool :
        (sql : String) (ttl : ℤ)
        → run_submit py invoke token ttl sql s
          ≡ call_tool env admit created token again (submit_call sql ttl) s
    unfolding run_submit server_call_tool
    run_submit-eq-call_tool sql ttl =
        elim (Bool-cases (is_empty sql || not (is_positive (requested_ttl ttl)))) [
          | inl e ↦
              rw (e, run_submit)
                (rejected_submit-eq-call_tool sql ttl (submit_arguments-submit_call sql ttl e))
          | inr e ↦
              rw (e, run_submit)
                (ap (λ r. (r, (call_tool env admit created token again (submit_call sql ttl) s).1))
                  (submission_of-receipt_result py _ _
                    (submit_call-IsSubmission env admit created token again s sql ttl)
                    (call_tool-IsClosed env admit created token again (submit_call sql ttl) s k)))
        ]

    rejected_status-eq-call_tool :
        (id : String)
        → is_request_id id ≡ false
        → (as_lifecycle (invalid_status_receipt token), s)
          ≡ call_tool env admit created token again (status_call id) s
    unfolding dispatch call_status invalid_status_receipt
    rejected_status-eq-call_tool id e =
        let missing : status_argument (status_call id).arguments ≡ none =
          rw (status_argument-status_call id, e) refl in
        let f = new_status_receipt-ok token QueryLifecycleStatus.not_found h in
        let answer : dispatch env admit created token (status_call id) s ≡ (
          ok (lifecycle (record { request_id = token; status = QueryLifecycleStatus.not_found })),
          s,
        ) =
          rw (missing, f, dispatch, call_status, invalid_status_receipt) refl in
        rw (f, call_tool-ok (status_call id) _ answer, invalid_status_receipt) refl

    run_status-eq-call_tool :
        (id : String)
        → run_status py invoke token id s
          ≡ call_tool env admit created token again (status_call id) s
    unfolding run_status server_call_tool
    run_status-eq-call_tool id = elim (Bool-cases (is_request_id id)) [
      | inl e ↦
          rw (new_status_receipt-ok id QueryLifecycleStatus.not_found e, run_status)
            (ap (λ r. (r, (call_tool env admit created token again (status_call id) s).1))
              (lifecycle_of-receipt_result py id _ _
                (status_call-IsLifecycle env admit created token again s id e)
                (call_tool-IsClosed env admit created token again (status_call id) s k)))
      | inr e ↦
          rw (new_status_receipt-err id QueryLifecycleStatus.not_found e, run_status)
            (rejected_status-eq-call_tool id e)
    ]

    -- A shell command that was parsed gives the receipt that a direct call of the tool gives, and leaves
    -- the server as that call does, whatever the SQL, the time to live and the request id on it are, if
    -- the tokens that are drawn for rejections have the form of request ids. What the command line turns
    -- down itself, the tool would have turned down with the same receipt.
    pub run-eq-call_tool :
        (command : Command) (sql : String)
        → run py invoke token command sql s
          ≡ call_tool env admit created token again (call_of command sql) s
    unfolding run
    run-eq-call_tool (submit ttl) sql = run_submit-eq-call_tool sql ttl
    run-eq-call_tool (status id) sql = run_status-eq-call_tool id
