-- ===== src/Tests/Pydantic.antt =====
-- A reader of the JSON of the receipts that is as pydantic documents it.
use snowglobe.Prelude.{String, Bool, true, Option, none, some, str_eq, if◌then◌else◌}
use snowglobe.Exec.{Result, ok, err, value_error}
use snowglobe.Fallible.{◌>>=◌, ◌>>◌, require}
use snowglobe.Control.Contracts.{
  ReceiptStatus, accepted, rejected, ReasonCode, no_reason, invalid_request, policy_rejected,
  QueryReceipt, QueryLifecycleStatus, QueryStatusReceipt, new_receipt, new_status_receipt,
}
use snowglobe.Control.Gateway.{Value, text, null, Dict, submission, lifecycle, item, keys_within}
use snowglobe.Control.Json.{
  receipt_status_text, reason_code_text, lifecycle_status_text, sql_value, submission_fields,
  lifecycle_fields, Pydantic,
}
use snowglobe.Control.Receipts.{
  IsValid, new_receipt-IsChecked, new_status_receipt-IsChecked, IsValid-new_receipt,
  IsValid-new_status_receipt,
}
use snowglobe.Fallible.{bind_returned, >>-eq-ok}
use snowglobe.Prelude.{◌≡◌, refl}

-- A field that has to be there.
unfoldable pub field : String → Dict → Result Value
field key d = elim (item key d) [ none ↦ err value_error | some v ↦ ok v ]

unfoldable pub read_text : Value → Result String
read_text (text s) = ok s
read_text _ = err value_error

-- the members of the enumerations by their values
unfoldable pub receipt_status_of : String → Result ReceiptStatus
receipt_status_of s =
    if str_eq s "accepted"
    then ok accepted
    else if str_eq s "rejected"
    then ok rejected
    else err value_error

unfoldable pub reason_code_of : String → Result ReasonCode
reason_code_of s =
    if str_eq s "NONE"
    then ok no_reason
    else if str_eq s "INVALID_REQUEST"
    then ok invalid_request
    else if str_eq s "POLICY_REJECTED"
    then ok policy_rejected
    else if str_eq s "SERVICE_UNAVAILABLE"
    then ok ReasonCode.service_unavailable
    else err value_error

unfoldable pub lifecycle_status_of : String → Result QueryLifecycleStatus
lifecycle_status_of s =
    if str_eq s "pending"
    then ok QueryLifecycleStatus.pending
    else if str_eq s "complete"
    then ok QueryLifecycleStatus.complete
    else if str_eq s "failed"
    then ok QueryLifecycleStatus.failed
    else if str_eq s "cancelled"
    then ok QueryLifecycleStatus.cancelled
    else if str_eq s "expired"
    then ok QueryLifecycleStatus.expired
    else if str_eq s "not_found"
    then ok QueryLifecycleStatus.not_found
    else if str_eq s "service_unavailable"
    then ok QueryLifecycleStatus.service_unavailable
    else err value_error

unfoldable pub read_sql : Value → Result (Option String)
read_sql null = ok none
read_sql (text s) = ok (some s)
read_sql _ = err value_error

abbrev is_receipt_field : String → Bool
is_receipt_field k =
    if str_eq k "status"
    then true
    else if str_eq k "request_id"
    then true
    else if str_eq k "reason_code"
    then true
    else str_eq k "governed_sql"

abbrev is_status_receipt_field : String → Bool
is_status_receipt_field k = if str_eq k "request_id" then true else str_eq k "status"

unfoldable pub read_submission : Dict → Result QueryReceipt
read_submission d = do
  require (keys_within is_receipt_field d) value_error
  status_value ← field "status" d
  status_name ← read_text status_value
  status ← receipt_status_of status_name
  id_value ← field "request_id" d
  request_id ← read_text id_value
  reason_value ← field "reason_code" d
  reason_name ← read_text reason_value
  reason_code ← reason_code_of reason_name
  governed_value ← field "governed_sql" d
  governed_sql ← read_sql governed_value
  new_receipt status request_id reason_code governed_sql

unfoldable pub read_lifecycle : Dict → Result QueryStatusReceipt
read_lifecycle d = do
  require (keys_within is_status_receipt_field d) value_error
  id_value ← field "request_id" d
  request_id ← read_text id_value
  status_value ← field "status" d
  status_name ← read_text status_value
  status ← lifecycle_status_of status_name
  new_status_receipt request_id status

-- `QueryReceipt.model_validate` and `QueryStatusReceipt.model_validate`
unfoldable pub validate_submission : Option Dict → Result QueryReceipt
validate_submission none = err value_error
validate_submission (some d) = read_submission d

unfoldable pub validate_lifecycle : Option Dict → Result QueryStatusReceipt
validate_lifecycle none = err value_error
validate_lifecycle (some d) = read_lifecycle d

receipt_status_of-receipt_status_text :
    (s : ReceiptStatus) → receipt_status_of (receipt_status_text s) ≡ ok s
unfolding receipt_status_of
receipt_status_of-receipt_status_text accepted = refl
receipt_status_of-receipt_status_text rejected = refl

reason_code_of-reason_code_text : (c : ReasonCode) → reason_code_of (reason_code_text c) ≡ ok c
unfolding reason_code_of
reason_code_of-reason_code_text no_reason = refl
reason_code_of-reason_code_text invalid_request = refl
reason_code_of-reason_code_text policy_rejected = refl
reason_code_of-reason_code_text ReasonCode.service_unavailable = refl

lifecycle_status_of-lifecycle_status_text :
    (s : QueryLifecycleStatus) → lifecycle_status_of (lifecycle_status_text s) ≡ ok s
unfolding lifecycle_status_of
lifecycle_status_of-lifecycle_status_text QueryLifecycleStatus.pending = refl
lifecycle_status_of-lifecycle_status_text QueryLifecycleStatus.complete = refl
lifecycle_status_of-lifecycle_status_text QueryLifecycleStatus.failed = refl
lifecycle_status_of-lifecycle_status_text QueryLifecycleStatus.cancelled = refl
lifecycle_status_of-lifecycle_status_text QueryLifecycleStatus.expired = refl
lifecycle_status_of-lifecycle_status_text QueryLifecycleStatus.not_found = refl
lifecycle_status_of-lifecycle_status_text QueryLifecycleStatus.service_unavailable = refl

read_sql-sql_value : (s : Option String) → read_sql (sql_value s) ≡ ok s
unfolding read_sql
read_sql-sql_value none = refl
read_sql-sql_value (some s) = refl

pub takes_submission :
    (r : QueryReceipt)
    → new_receipt r.status r.request_id r.reason_code r.governed_sql ≡ ok r
    → validate_submission (some (submission_fields r)) ≡ ok r
unfolding validate_submission read_submission field item keys_within read_text
takes_submission r h =
    rw
      (
        receipt_status_of-receipt_status_text r.status,
        reason_code_of-reason_code_text r.reason_code,
        read_sql-sql_value r.governed_sql,
      )
      h

pub takes_lifecycle :
    (r : QueryStatusReceipt)
    → new_status_receipt r.request_id r.status ≡ ok r
    → validate_lifecycle (some (lifecycle_fields r)) ≡ ok r
unfolding validate_lifecycle read_lifecycle field item keys_within read_text
takes_lifecycle r h = rw (lifecycle_status_of-lifecycle_status_text r.status) h

-- What was read has been validated.
read_submission-IsValid :
    (d : Dict) (r : QueryReceipt) → read_submission d ≡ ok r → IsValid (submission r)
unfolding read_submission
read_submission-IsValid d r h =
    let (_, h1) = >>-eq-ok (require (keys_within _ d) value_error) _ r h in
    let (v2, _, h2) = bind_returned (field "status" d) _ r h1 in
    let (v3, _, h3) = bind_returned (read_text v2) _ r h2 in
    let (s, _, h4) = bind_returned (receipt_status_of v3) _ r h3 in
    let (v5, _, h5) = bind_returned (field "request_id" d) _ r h4 in
    let (id, _, h6) = bind_returned (read_text v5) _ r h5 in
    let (v7, _, h7) = bind_returned (field "reason_code" d) _ r h6 in
    let (v8, _, h8) = bind_returned (read_text v7) _ r h7 in
    let (c, _, h9) = bind_returned (reason_code_of v8) _ r h8 in
    let (v10, _, h10) = bind_returned (field "governed_sql" d) _ r h9 in
    let (sql, _, h11) = bind_returned (read_sql v10) _ r h10 in
    rw h11 at (new_receipt-IsChecked s id c sql)

read_lifecycle-IsValid :
    (d : Dict) (r : QueryStatusReceipt) → read_lifecycle d ≡ ok r → IsValid (lifecycle r)
unfolding read_lifecycle
read_lifecycle-IsValid d r h =
    let (_, h1) = >>-eq-ok (require (keys_within _ d) value_error) _ r h in
    let (v2, _, h2) = bind_returned (field "request_id" d) _ r h1 in
    let (id, _, h3) = bind_returned (read_text v2) _ r h2 in
    let (v4, _, h4) = bind_returned (field "status" d) _ r h3 in
    let (v5, _, h5) = bind_returned (read_text v4) _ r h4 in
    let (s, _, h6) = bind_returned (lifecycle_status_of v5) _ r h5 in
    rw h6 at (new_status_receipt-IsChecked id s)

pub builds_submission :
    (content : Option Dict) (r : QueryReceipt)
    → validate_submission content ≡ ok r
    → new_receipt r.status r.request_id r.reason_code r.governed_sql ≡ ok r
unfolding validate_submission
builds_submission none r h = absurd (cc h)
builds_submission (some d) r h = IsValid-new_receipt r (read_submission-IsValid d r h)

pub builds_lifecycle :
    (content : Option Dict) (r : QueryStatusReceipt)
    → validate_lifecycle content ≡ ok r
    → new_status_receipt r.request_id r.status ≡ ok r
unfolding validate_lifecycle
builds_lifecycle none r h = absurd (cc h)
builds_lifecycle (some d) r h = IsValid-new_status_receipt r (read_lifecycle-IsValid d r h)

unfoldable pub reader : Pydantic
reader = record {
  dump_submission = submission_fields;
  dump_lifecycle = lifecycle_fields;
  validate_submission = validate_submission;
  validate_lifecycle = validate_lifecycle;
  dumps_submission = λ r. refl;
  dumps_lifecycle = λ r. refl;
  takes_submission = takes_submission;
  takes_lifecycle = takes_lifecycle;
  builds_submission = builds_submission;
  builds_lifecycle = builds_lifecycle;
}

unfoldable pub reading : Unit {0}
unfolding field read_text receipt_status_of reason_code_of lifecycle_status_of read_sql
    read_submission read_lifecycle validate_submission validate_lifecycle reader item keys_within
reading = tt
