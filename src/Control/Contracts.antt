-- ===== src/Control/Contracts.antt =====
-- src/snowglobe/contracts.py: the receipts, built only if they are valid.
use snowglobe.Prelude.{
  ℕ, String, Bool, true, false, Option, none, some, ◌&&◌, ◌||◌, ◌==◌, leb, if◌then◌else◌, suc,
}
use snowglobe.Exec.{Result, ok, err, value_error}
use Prim.Native.Char.{code}
use snowglobe.Broker.Records.{RequestStatus}

pub data ReceiptStatus : Type 0 where
  accepted rejected : ReceiptStatus

pub data ReasonCode : Type 0 where
  no_reason invalid_request policy_rejected service_unavailable : ReasonCode

pub record QueryReceipt : Type 0 where
  pub status : ReceiptStatus
  pub request_id : String
  pub reason_code : ReasonCode
  pub governed_sql : Option String

pub data QueryLifecycleStatus : Type 0 where
  pending complete failed cancelled expired not_found service_unavailable : QueryLifecycleStatus

pub record QueryStatusReceipt : Type 0 where
  pub request_id : String
  pub status : QueryLifecycleStatus

-- `[A-Za-z0-9_-]`
unfoldable pub is_id_code : ℕ → Bool
is_id_code c =
    (leb b'A' c && leb c b'Z')
    || (leb b'a' c && leb c b'z')
    || (leb b'0' c && leb c b'9')
    || c == b'_'
    || c == b'-'

unfoldable pub all_id_codes : String → Bool
all_id_codes String.[] = true
all_id_codes (String.◌∷◌ c s) = is_id_code (code c) && all_id_codes s

unfoldable pub string_length : String → ℕ
string_length String.[] = 0
string_length (String.◌∷◌ c s) = suc (string_length s)

-- `^[A-Za-z0-9_-]{20,32}$`
unfoldable pub is_request_id : String → Bool
is_request_id s = leb 20 (string_length s) && leb (string_length s) 32 && all_id_codes s

-- `min_length=1`, where there is a text
unfoldable pub is_sql : Option String → Bool
is_sql none = true
is_sql (some String.[]) = false
is_sql (some (String.◌∷◌ c s)) = true

-- the tests of `require_consistent_submission`
unfoldable pub is_consistent : ReceiptStatus → ReasonCode → Option String → Bool
is_consistent accepted no_reason (some sql) = true
is_consistent rejected invalid_request none = true
is_consistent rejected policy_rejected none = true
is_consistent rejected service_unavailable none = true
is_consistent _ _ _ = false

-- `QueryReceipt(…)`
unfoldable pub new_receipt :
    ReceiptStatus → String → ReasonCode → Option String → Result QueryReceipt
new_receipt status request_id reason_code governed_sql =
    if is_request_id request_id
      && is_sql governed_sql
      && is_consistent status reason_code governed_sql
    then ok (record {
      status = status;
      request_id = request_id;
      reason_code = reason_code;
      governed_sql = governed_sql;
    })
    else err value_error

-- `QueryStatusReceipt(…)`
unfoldable pub new_status_receipt : String → QueryLifecycleStatus → Result QueryStatusReceipt
new_status_receipt request_id status =
    if is_request_id request_id
    then ok (record { request_id = request_id; status = status })
    else err value_error

-- `QueryLifecycleStatus(status.value)`
unfoldable pub lifecycle_of : RequestStatus → QueryLifecycleStatus
lifecycle_of RequestStatus.pending = QueryLifecycleStatus.pending
lifecycle_of RequestStatus.complete = QueryLifecycleStatus.complete
lifecycle_of RequestStatus.failed = QueryLifecycleStatus.failed
lifecycle_of RequestStatus.cancelled = QueryLifecycleStatus.cancelled
lifecycle_of RequestStatus.expired = QueryLifecycleStatus.expired
