-- ===== src/Python.antt =====
-- What the program takes from Python's standard library: signed integers, `datetime` and `timedelta`
-- as microseconds.
use snowglobe.Prelude.{◌<◌, ◌≡◌, arith, ℕ, zero, suc, ◌+◌, ltb, if◌then◌else◌}
use snowglobe.Exec.{Result, ok, err, value_error, overflow_error}

-- `negsuc n` is -(n + 1).
pub data ℤ : Type 0 where
  pos : ℕ → ℤ
  negsuc : ℕ → ℤ

-- A time as microseconds since the year 1, and the last one that a `datetime` can hold.
abbrev pub datetime_max : ℕ
datetime_max = 315537897599999999

-- `moment + delta` for a positive `timedelta`
unfoldable pub add_timedelta : ℕ → ℕ → Result ℕ
add_timedelta moment delta =
    if ltb datetime_max (moment + delta) then err overflow_error else ok (moment + delta)

-- `if value <= 0: raise ValueError`, and the value otherwise
unfoldable pub require_positive : ℤ → Result ℕ
require_positive (pos zero) = err value_error
require_positive (pos (suc n)) = ok (suc n)
require_positive (negsuc n) = err value_error

-- The sum that a `datetime` holds is the sum of the times.
pub add_timedelta-eq-add :
    (moment delta t : ℕ) → add_timedelta moment delta ≡ ok t → t ≡ moment + delta
unfolding add_timedelta
add_timedelta-eq-add moment delta t h = ground arith

pub require_positive-eq-ok : (z : ℤ) (n : ℕ) → require_positive z ≡ ok n → (z ≡ pos n) × (0 < n)
unfolding require_positive
require_positive-eq-ok (pos zero) n h = absurd (cc h)
require_positive-eq-ok (pos (suc m)) n h = let e : suc m ≡ n = cc in (cc e, omega arith)
require_positive-eq-ok (negsuc m) n h = absurd (cc h)
