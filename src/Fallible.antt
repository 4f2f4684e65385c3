-- ===== src/Fallible.antt =====
-- Python functions that change nothing and may raise.
use snowglobe.Prelude.{◌≡◌, refl, Bool, true, false, if◌then◌else◌}
use snowglobe.Exec.{Result, ok, err, Error}

module _ {ℓ} {B : Type ℓ} where
  infixl 5 ◌>>=◌ ◌>>◌
  -- the value of one call handed to what follows, which an exception skips
  abbrev pub ◌>>=◌ {κ} : {A : Type κ} → Result A → (A → Result B) → Result B
  result >>= next = elim result [ err e ↦ err e | ok value ↦ next value ]

  -- a check, and what follows it
  abbrev pub ◌>>◌ : Result (Unit {0}) → Result B → Result B
  check >> next = elim check [ err e ↦ err e | ok _ ↦ next ]

  -- A block that returned has passed its check.
  pub >>-eq-ok :
      (check : Result (Unit {0})) (next : Result B) (b : B)
      → (check >> next) ≡ ok b
      → (check ≡ ok tt) × (next ≡ ok b)
  >>-eq-ok (err e) next b h = absurd (cc h)
  >>-eq-ok (ok tt) next b h = (refl, h)

-- `if not test: raise error`
abbrev pub require : Bool → Error → Result (Unit {0})
require test e = if test then ok tt else err e

pub require-eq-ok : (test : Bool) (e : Error) → require test e ≡ ok tt → test ≡ true
require-eq-ok false e h = absurd (cc h)
require-eq-ok true e h = refl

-- The value that a block which returned has gone on with.
pub bind_returned {ℓ κ} :
    {A : Type ℓ} {B : Type κ} (call : Result A) (next : A → Result B) (result : B)
    → (call >>= next) ≡ ok result
    → (a : A) × (call ≡ ok a) × (next a ≡ ok result)
bind_returned (err e) next result h = absurd (cc h)
bind_returned (ok a) next result h = (a, refl, h)
