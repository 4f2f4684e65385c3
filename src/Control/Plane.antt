-- ===== src/Control/Plane.antt =====
-- src/snowglobe/control.py: `ControlPlane`.
use snowglobe.Prelude.{String, Option, none, some}
use snowglobe.Exec.{Result, ok, err, Error, Exec, query_policy_rejected, request_unavailable}
use snowglobe.Python.{ℤ}
use snowglobe.Broker.Records.{RequestView}
use snowglobe.Broker.State.{Broker, Environment}
use snowglobe.Broker.Methods.{get_request}
use snowglobe.Control.Contracts.{
  ReceiptStatus, ReasonCode, QueryReceipt, QueryLifecycleStatus, QueryStatusReceipt, new_receipt,
  new_status_receipt, lifecycle_of,
}
use snowglobe.Control.Executor.{Executor, SubmittedQuery, submit_query, close}

-- `rejected_receipt`, with the token that `secrets.token_urlsafe(18)` gives
unfoldable pub rejected_receipt : String → ReasonCode → Result QueryReceipt
rejected_receipt token reason = new_receipt ReceiptStatus.rejected token reason none

-- `invalid_status_receipt`
unfoldable pub invalid_status_receipt : String → Result QueryStatusReceipt
invalid_status_receipt token = new_status_receipt token QueryLifecycleStatus.not_found

-- What the tests of `submit` on the outcome of the executor give; what is no `Exception` goes on.
unfoldable pub receipt_of : String → Result SubmittedQuery → Result QueryReceipt
receipt_of token (ok q) =
    new_receipt ReceiptStatus.accepted q.request.request_id ReasonCode.no_reason
      (some q.governed_sql)
receipt_of token (err query_policy_rejected) = rejected_receipt token ReasonCode.policy_rejected
receipt_of token (err Error.cancelled_error) = err Error.cancelled_error
receipt_of token (err Error.still_running) = err Error.still_running
receipt_of token (err e) = rejected_receipt token ReasonCode.service_unavailable

-- the same for `status`
unfoldable pub status_receipt_of : String → Result RequestView → Result QueryStatusReceipt
status_receipt_of request_id (ok v) = new_status_receipt request_id (lifecycle_of v.status)
status_receipt_of request_id (err request_unavailable) =
    new_status_receipt request_id QueryLifecycleStatus.not_found
status_receipt_of request_id (err Error.cancelled_error) = err Error.cancelled_error
status_receipt_of request_id (err Error.still_running) = err Error.still_running
status_receipt_of request_id (err e) =
    new_status_receipt request_id QueryLifecycleStatus.service_unavailable

module _ (env : Environment) where
  -- `ControlPlane.submit` with an executor. `admitted` and `created` are what the admission of the
  -- SQL and the creation of the task give.
  unfoldable pub submit :
      String → Result String → Result (Unit {0}) → ℤ → Exec Executor QueryReceipt
  submit token admitted created requested_ttl s = (
    receipt_of token (submit_query env admitted created requested_ttl s).0,
    (submit_query env admitted created requested_ttl s).1,
  )

  -- `ControlPlane.status`
  unfoldable pub status : String → Exec Broker QueryStatusReceipt
  status request_id b = (
    status_receipt_of request_id (get_request env request_id b).0,
    (get_request env request_id b).1,
  )

  -- `ControlPlane.submit` and `ControlPlane.close` where the executor may be missing
  unfoldable pub submit_optional :
      String → Result String → Result (Unit {0}) → ℤ → Exec (Option Executor) QueryReceipt
  submit_optional token admitted created requested_ttl none =
      (rejected_receipt token ReasonCode.service_unavailable, none)
  submit_optional token admitted created requested_ttl (some s) =
      let (r, s') = submit token admitted created requested_ttl s in (r, some s')

  unfoldable pub close_optional : Exec (Option Executor) (Unit {0})
  close_optional none = (ok tt, none)
  close_optional (some s) = let (r, s') = close env s in (r, some s')
