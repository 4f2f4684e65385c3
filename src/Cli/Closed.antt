-- ===== src/Cli/Closed.antt =====
-- What a shell command may print.
use snowglobe.Prelude.{
  String, ◌≡◌, ◌⊎◌, refl, true, false, not, Option, none, some, List, ◌||◌, str_eq, Bool-cases, inl,
  inr,
}
use snowglobe.Exec.{Result, ok, err, is_exception, Exec, Result-cases, value_error}
use snowglobe.Python.{ℤ}
use snowglobe.Control.Contracts.{
  ReasonCode, QueryLifecycleStatus, QueryStatusReceipt, new_status_receipt, is_request_id,
  is_consistent,
}
use snowglobe.Control.Plane.{rejected_receipt}
use snowglobe.Control.Gateway.{CallTool, Dict, Receipt, as_submission, as_lifecycle}
use snowglobe.Control.Json.{Pydantic}
use snowglobe.Control.Receipts.{
  IsValid, IsClosed, IsChecked, new_receipt-IsChecked, new_status_receipt-IsChecked,
  rejected_receipt-IsClosed, invalid_status_receipt-IsClosed,
}
use snowglobe.Cli.Command.{
  Command, submit, status, or_receipt, submission_of, lifecycle_of, require_same, run_submit,
  run_status, run, asks_status, main, is_empty, is_positive, requested_ttl,
}

validate_submission-IsChecked :
    (py : Pydantic) (content : Option Dict)
    → IsChecked (as_submission (py.validate_submission content))
validate_submission-IsChecked py content = elim (Result-cases (py.validate_submission content)) [
  | inr (x, e) ↦ rw e tt
  | inl (r, e) ↦ rw e (
      rw (py.builds_submission content r e) at
        (new_receipt-IsChecked r.status r.request_id r.reason_code r.governed_sql))
]

validate_lifecycle-IsChecked :
    (py : Pydantic) (content : Option Dict)
    → IsChecked (as_lifecycle (py.validate_lifecycle content))
validate_lifecycle-IsChecked py content = elim (Result-cases (py.validate_lifecycle content)) [
  | inr (x, e) ↦ rw e tt
  | inl (r, e) ↦
      rw e (
        rw (py.builds_lifecycle content r e) at
          (new_status_receipt-IsChecked r.request_id r.status))
]

require_same-IsChecked :
    (id : String) (r : Result QueryStatusReceipt)
    → IsChecked (as_lifecycle r)
    → IsChecked (as_lifecycle (require_same id r))
unfolding require_same
require_same-IsChecked id (err e) h = tt
require_same-IsChecked id (ok r) h = elim (Bool-cases (str_eq r.request_id id)) [
  | inl e ↦ rw (e, require_same) h
  | inr e ↦ rw (e, require_same) tt
]

or_receipt-IsClosed :
    (r instead : Result Receipt) → IsChecked r → IsClosed instead → IsClosed (or_receipt r instead)
unfolding or_receipt
or_receipt-IsClosed (ok r) instead h k = h
or_receipt-IsClosed (err e) instead h k = elim (Bool-cases (is_exception e)) [
  | inl p ↦ rw (p, or_receipt) k
  | inr p ↦ rw (p, or_receipt) p
]

submission_of-IsChecked :
    (py : Pydantic) (r : Result (Option Dict)) → IsChecked (submission_of py r)
unfolding submission_of
submission_of-IsChecked py (ok content) = validate_submission-IsChecked py content
submission_of-IsChecked py (err e) = tt

lifecycle_of-IsChecked :
    (py : Pydantic) (id : String) (r : Result (Option Dict)) → IsChecked (lifecycle_of py id r)
unfolding lifecycle_of
lifecycle_of-IsChecked py id (ok content) =
    require_same-IsChecked id (py.validate_lifecycle content)
      (validate_lifecycle-IsChecked py content)
lifecycle_of-IsChecked py id (err e) = tt

pub new_status_receipt-ok :
    (id : String) (s : QueryLifecycleStatus)
    → is_request_id id ≡ true
    → new_status_receipt id s ≡ ok (record { request_id = id; status = s })
unfolding new_status_receipt
new_status_receipt-ok id s h = rw (h, new_status_receipt) refl

pub new_status_receipt-err :
    (id : String) (s : QueryLifecycleStatus)
    → is_request_id id ≡ false
    → new_status_receipt id s ≡ err value_error
unfolding new_status_receipt
new_status_receipt-err id s h = rw (h, new_status_receipt) refl

new_status_receipt-IsClosed :
    (id : String) (s : QueryLifecycleStatus)
    → is_request_id id ≡ true
    → IsClosed (as_lifecycle (new_status_receipt id s))
unfolding new_status_receipt
new_status_receipt-IsClosed id s h = rw (h, new_status_receipt) h

-- What may end a command: no `Exception`, unless it is what reading the standard input has raised.
abbrev pub Ends : Result String → Result Receipt → Type 0
Ends input (ok r) = IsValid r
Ends input (err e) = (is_exception e ≡ false) ⊎ (input ≡ err e)

IsClosed-Ends : (input : Result String) (r : Result Receipt) → IsClosed r → Ends input r
IsClosed-Ends input (ok r) h = h
IsClosed-Ends input (err e) h = inl h

module _ {S : Type 0} (py : Pydantic) (invoke : CallTool → Exec S (Option Dict)) (token : String)
    (h : is_request_id token ≡ true) where
  rejected-IsClosed : IsClosed (as_submission (rejected_receipt token ReasonCode.invalid_request))
  rejected-IsClosed =
      rejected_receipt-IsClosed token ReasonCode.invalid_request (unfold is_consistent in refl) h

  run_submit-IsClosed :
      (ttl : ℤ) (sql : String) (s : S) → IsClosed (run_submit py invoke token ttl sql s).0
  unfolding run_submit
  run_submit-IsClosed ttl sql s =
      elim (Bool-cases (is_empty sql || not (is_positive (requested_ttl ttl)))) [
        | inl e ↦ rw (e, run_submit) rejected-IsClosed
        | inr e ↦
            rw (e, run_submit)
              (or_receipt-IsClosed _ _ (submission_of-IsChecked py _) (
                rejected_receipt-IsClosed token ReasonCode.service_unavailable
                  (unfold is_consistent in refl) h))
      ]

  run_status-IsClosed :
      (request_id : String) (s : S) → IsClosed (run_status py invoke token request_id s).0
  unfolding run_status
  run_status-IsClosed request_id s = elim (Bool-cases (is_request_id request_id)) [
    | inr e ↦
        rw (new_status_receipt-err request_id QueryLifecycleStatus.not_found e, run_status)
          (invalid_status_receipt-IsClosed token h)
    | inl e ↦
        rw (new_status_receipt-ok request_id QueryLifecycleStatus.not_found e, run_status)
          (or_receipt-IsClosed _ _ (lifecycle_of-IsChecked py request_id _)
            (new_status_receipt-IsClosed request_id QueryLifecycleStatus.service_unavailable e))
  ]

  -- Whatever the command line and the server are, a shell command prints a valid receipt, or ends as no
  -- `Exception` does, or with the exception that reading the standard input has raised, if the token
  -- that is drawn for a rejection has the form of a request id.
  pub main-IsClosed :
      (raw_arguments : List String) (parsed : Option Command) (input : Result String) (s : S)
      → Ends input (main py invoke token raw_arguments parsed input s).0
  unfolding main run
  main-IsClosed raw_arguments (some (submit ttl)) (ok sql) s =
      IsClosed-Ends (ok sql) _ (run_submit-IsClosed ttl sql s)
  main-IsClosed raw_arguments (some (submit ttl)) (err e) s = inr refl
  main-IsClosed raw_arguments (some (status id)) input s =
      IsClosed-Ends input _ (run_status-IsClosed id s)
  main-IsClosed raw_arguments none input s =
      elim (Bool-cases (asks_status py invoke raw_arguments)) [
        | inl e ↦ rw (e, main) (IsClosed-Ends input _ (invalid_status_receipt-IsClosed token h))
        | inr e ↦ rw (e, main) (IsClosed-Ends input _ rejected-IsClosed)
      ]
