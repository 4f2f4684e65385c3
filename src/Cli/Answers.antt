-- ===== src/Cli/Answers.antt =====
-- What the tools answer to the calls of the shell commands.
use snowglobe.Prelude.{
  ℕ, suc, String, ◌≡◌, refl, true, not, none, some, ◌||◌, ltb, str_eq, str_eq_iff, arith,
  if◌then◌else◌, Option-cases, inl, inr,
}
use snowglobe.Exec.{Result, ok, err}
use snowglobe.Python.{ℤ, pos, negsuc}
use snowglobe.Broker.State.{Environment}
use snowglobe.Control.Contracts.{QueryLifecycleStatus, is_request_id}
use snowglobe.Control.Executor.{Executor, on_broker}
use snowglobe.Control.Plane.{status as poll}
use snowglobe.Control.Gateway.{
  Receipt, submission, lifecycle, call_status, dispatch, failure, call_tool, item, keys_within,
  submit_arguments, submit_values, status_argument, status_value, seconds,
}
use snowglobe.Control.Json.{Pydantic, dump, receipt_result}
use snowglobe.Control.Receipts.{IsClosed, IsValid-new_receipt, IsValid-new_status_receipt}
use snowglobe.Control.Shapes.{
  Returns, IsSubmission, IsLifecycle, new_status_receipt-IsLifecycle, status_receipt_of-IsLifecycle,
  call_tool-Returns, submit_tool-IsSubmission,
}
use snowglobe.Cli.Command.{
  submit_call, status_call, or_receipt, require_same, submission_of, lifecycle_of, is_empty,
  is_positive, requested_ttl,
}

seconds-positive : (n t : ℕ) → seconds (suc n) ≡ some t → ltb 0 t ≡ true
unfolding seconds
seconds-positive n t h = ground arith

-- A `submit` that the command line turns down is one that the server turns down.
pub submit_arguments-submit_call :
    (sql : String) (ttl : ℤ)
    → (is_empty sql || not (is_positive (requested_ttl ttl))) ≡ true
    → submit_arguments (submit_call sql ttl).arguments ≡ none
unfolding submit_arguments item keys_within submit_values requested_ttl
submit_arguments-submit_call String.[] ttl h = refl
submit_arguments-submit_call (String.◌∷◌ c sql) (negsuc n) h = refl
submit_arguments-submit_call (String.◌∷◌ c sql) (pos ℕ.zero) h = refl
submit_arguments-submit_call (String.◌∷◌ c sql) (pos (suc n)) h =
    elim (Option-cases (seconds (suc n))) [
      | inl e ↦ rw (e, submit_arguments, submit_values) refl
      | inr (t, e) ↦ let p = seconds-positive n t e in absurd (cc (rw (e, p, requested_ttl) at h))
    ]

pub status_argument-status_call :
    (id : String)
    → status_argument (status_call id).arguments ≡ (if is_request_id id then some id else none)
unfolding status_argument status_value item keys_within
status_argument-status_call id = refl

-- A valid receipt comes through the connection as it was sent.
pub submission_of-receipt_result :
    (py : Pydantic) (r instead : Result Receipt)
    → Returns IsSubmission r
    → IsClosed r
    → or_receipt (submission_of py (receipt_result py r)) instead ≡ r
unfolding or_receipt submission_of receipt_result dump
submission_of-receipt_result py (ok (submission q)) instead sent valid =
    rw
      (
        py.dumps_submission q,
        py.takes_submission q (IsValid-new_receipt q valid),
        or_receipt,
        submission_of,
      )
      refl
submission_of-receipt_result py (ok (lifecycle q)) instead (p, e) valid = absurd (cc e)
submission_of-receipt_result py (err e) instead sent valid = rw (valid, or_receipt) refl

pub lifecycle_of-receipt_result :
    (py : Pydantic) (id : String) (r instead : Result Receipt)
    → Returns (IsLifecycle id) r
    → IsClosed r
    → or_receipt (lifecycle_of py id (receipt_result py r)) instead ≡ r
unfolding or_receipt lifecycle_of require_same receipt_result dump
lifecycle_of-receipt_result py id (ok (lifecycle q)) instead (p, e, same) valid =
    let e' : q ≡ p = cc in
    let own : q.request_id ≡ id = cc in
    let asked : str_eq q.request_id id ≡ true = ground (arith, str_eq_iff q.request_id id) in
    rw
      (
        py.dumps_lifecycle q,
        py.takes_lifecycle q (IsValid-new_status_receipt q valid),
        asked,
        or_receipt,
        lifecycle_of,
        require_same,
      )
      refl
lifecycle_of-receipt_result py id (ok (submission q)) instead (p, e, same) valid = absurd (cc e)
lifecycle_of-receipt_result py id (err e) instead sent valid = rw (valid, or_receipt) refl

module _ (env : Environment) (admit : String → Result String) (created : Result (Unit {0}))
    (token again : String) (s : Executor) where
  pub submit_call-IsSubmission :
      (sql : String) (ttl : ℤ)
      → Returns IsSubmission (call_tool env admit created token again (submit_call sql ttl) s).0
  submit_call-IsSubmission sql ttl =
      submit_tool-IsSubmission env admit created token again s (submit_call sql ttl).arguments

  -- The status tool answers about the request that it was asked about.
  pub status_call-IsLifecycle :
      (id : String)
      → is_request_id id ≡ true
      → Returns (IsLifecycle id) (call_tool env admit created token again (status_call id) s).0
  unfolding dispatch failure call_status poll on_broker
  status_call-IsLifecycle id h =
      let e : status_argument (status_call id).arguments ≡ some id =
        rw (status_argument-status_call id, h) refl in
      call_tool-Returns env admit created token again s (IsLifecycle id) (status_call id)
        (rw (e, dispatch, call_status) (status_receipt_of-IsLifecycle id _))
        (rw (e, failure)
          (new_status_receipt-IsLifecycle id QueryLifecycleStatus.service_unavailable))
