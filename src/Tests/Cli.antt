-- ===== src/Tests/Cli.antt =====
-- The shell commands and the JSON of the receipts on concrete inputs.
use snowglobe.Prelude.{◌≡◌, refl, Option, some, none, [], ◌∷◌}
use snowglobe.Exec.{Error, is_exception, Exec, ok, err, os_error, value_error}
use snowglobe.Python.{pos}
use snowglobe.Control.Contracts.{QueryReceipt, accepted, rejected, no_reason, ReasonCode}
use snowglobe.Control.Gateway.{CallTool, Dict, submission, text, call_tool}
use snowglobe.Control.Json.{dump, receipt_result, server_call_tool}
use snowglobe.Cli.Command.{
  Command, or_receipt, require_same, submission_of, lifecycle_of, requested_ttl, run_submit,
  run_status, run, main, asks_status,
}
use snowglobe.Cli.Closed.{Ends, main-IsClosed}
use snowglobe.Cli.Transparent.{run-eq-call_tool}
use snowglobe.Tests.Pydantic.{reader, reading}
use snowglobe.Tests.Control.{control_program, long_token, urlsafe, fresh, admit, call}

cli_program : Unit {0}
unfolding control_program reading is_exception dump receipt_result server_call_tool or_receipt
    require_same submission_of lifecycle_of requested_ttl run_submit run_status run main asks_status
cli_program = tt

abbrev accepted_receipt : QueryReceipt
accepted_receipt = record {
  status = accepted;
  request_id = long_token;
  reason_code = no_reason;
  governed_sql = some "SELECT 1 LIMIT 51";
}

-- No server listens.
abbrev no_server : CallTool → Exec (Unit {0}) (Option Dict)
no_server request s = (err os_error, s)

-- The fields of a receipt that another server sends.
foreign_reason :
    reader.validate_submission (
      some (
        ("status", text "accepted")
        ∷ ("request_id", text long_token)
        ∷ ("reason_code", text "INVALID_REQUEST")
        ∷ ("governed_sql", text "SELECT 1")
        ∷ []))
    ≡ err Error.value_error
unfolding cli_program
foreign_reason = refl

unavailable :
    (main reader no_server long_token
      ("submit" ∷ "--ttl" ∷ "60" ∷ [])
      (some (Command.submit (pos 60)))
      (ok "SELECT 1")
      tt).0
    ≡ ok (
        submission (record {
          status = rejected;
          request_id = long_token;
          reason_code = ReasonCode.service_unavailable;
          governed_sql = none;
        }))
unfolding cli_program
unavailable = refl

served :
    (run reader
      (server_call_tool reader urlsafe admit (ok tt) long_token long_token)
      long_token
      (Command.submit (pos 60))
      "SELECT 1"
      fresh).0
    ≡ ok (submission accepted_receipt)
unfolding cli_program
served = refl

-- The standard input is no text, and nothing is asked.
unreadable :
    (main reader no_server long_token [] (some (Command.submit (pos 60))) (err value_error) tt).0
    ≡ err value_error
unfolding cli_program
unreadable = refl

main-IsClosed_example :
    Ends
      (ok "SELECT 1")
      (main reader no_server long_token
        ("submit" ∷ "--ttl" ∷ "60" ∷ [])
        (some (Command.submit (pos 60)))
        (ok "SELECT 1")
        tt).0
unfolding cli_program
main-IsClosed_example =
    main-IsClosed reader no_server long_token refl ("submit" ∷ "--ttl" ∷ "60" ∷ [])
      (some (Command.submit (pos 60))) (ok "SELECT 1") tt

run-eq-call_tool_example :
    run reader
      (server_call_tool reader urlsafe admit (ok tt) long_token long_token)
      long_token
      (Command.submit (pos 60))
      "SELECT 1"
      fresh
    ≡ call_tool urlsafe admit (ok tt) long_token long_token call fresh
unfolding cli_program
run-eq-call_tool_example =
    run-eq-call_tool reader urlsafe admit (ok tt) long_token long_token fresh refl refl
      (Command.submit (pos 60)) "SELECT 1"
