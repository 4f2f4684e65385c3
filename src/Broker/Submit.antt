-- ===== src/Broker/Submit.antt =====
-- `submit` as a whole: a time to live that is not positive is refused at once, and otherwise what has
-- expired is closed before the body runs.
use snowglobe.Prelude.{◌≡◌, ◌⊎◌, ℕ, refl, List, [], arith, inl, inr}
use snowglobe.Exec.{Result, ok, err, Error, Result-cases}
use snowglobe.Python.{ℤ, require_positive}
use snowglobe.Broker.Records.{RequestView, CursorRef}
use snowglobe.Broker.State.{Broker, Environment, cancel_each, locked_records}
use snowglobe.Broker.Methods.{admit_pending, submit}
use snowglobe.Broker.Progress.{locked_records_cases, after_expiry, after_expiry-Progress}
use snowglobe.Broker.Invariant.{IsWellFormed, Progress-IsWellFormed, cancel_each-IsWellFormed}
use snowglobe.Broker.Admission.{Outcome, admit_pending-Outcome}

-- How a call with a positive time to live came out: the body ran on the broker that has closed what
-- had expired, and then the cursors of those requests were cancelled.
pub record Submitted (env : Environment) (ttl : ℕ) (b : Broker) (out : Result RequestView × Broker)
    : Type 0 where
  pub result : Result RequestView
  pub state : Broker
  pub cursors : List CursorRef
  pub outcome : Outcome env ttl (after_expiry env b) (result, state)
  pub eq : out ≡ (result, cancel_each cursors state)

module _ (env : Environment) (b : Broker) (w : IsWellFormed b) where
  after_expiry-IsWellFormed : IsWellFormed (after_expiry env b)
  after_expiry-IsWellFormed =
      Progress-IsWellFormed b (after_expiry env b) (after_expiry-Progress env b) w

  under_lock : (ttl : ℕ) → Submitted env ttl b (locked_records env (admit_pending env ttl) b)
  under_lock ttl = elim (locked_records_cases env (admit_pending env ttl) b) [
    | inl (x, e) ↦ record {
      result = err x;
      state = after_expiry env b;
      cursors = [];
      outcome = record {
        retained = inl refl;
        well_formed = after_expiry-IsWellFormed;
        draws_grow = omega arith;
        same_limits = (refl, refl, refl);
      };
      eq = unfold cancel_each in e;
    }
    | inr (cs, e) ↦ record {
      result = (admit_pending env ttl (after_expiry env b)).0;
      state = (admit_pending env ttl (after_expiry env b)).1;
      cursors = cs;
      outcome = admit_pending-Outcome env ttl (after_expiry env b) after_expiry-IsWellFormed;
      eq = e;
    }
  ]

  pub submit_cases :
      (z : ℤ)
      → ((x : Error) × (require_positive z ≡ err x) × (submit env z b ≡ (err x, b)))
        ⊎ ((ttl : ℕ) × (require_positive z ≡ ok ttl) × Submitted env ttl b (submit env z b))
  unfolding submit
  submit_cases z = elim (Result-cases (require_positive z)) [
    | inr (x, e) ↦ inl (x, e, rw (e, submit))
    | inl (ttl, e) ↦ inr (ttl, e, rw (e, submit) (under_lock ttl))
  ]

  IsWellFormed-of :
      (ttl : ℕ) (c : Broker) (r : Result RequestView) (b' : Broker)
      → Outcome env ttl c (r, b')
      → IsWellFormed b'
  IsWellFormed-of ttl c (ok v) b' o = o.well_formed
  IsWellFormed-of ttl c (err x) b' o = o.well_formed

  pub submit-IsWellFormed : (z : ℤ) → IsWellFormed (submit env z b).1
  submit-IsWellFormed z = elim (submit_cases z) [
    | inl (x, p, e) ↦ rw e w
    | inr (ttl, p, s) ↦ rw s.eq (
        cancel_each-IsWellFormed s.cursors s.state
          (IsWellFormed-of ttl (after_expiry env b) s.result s.state s.outcome))
  ]
