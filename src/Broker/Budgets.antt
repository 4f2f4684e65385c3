-- ===== src/Broker/Budgets.antt =====
-- The limits of a broker stay what they are.
use snowglobe.Prelude.{refl, List, [], ◌∷◌, inl, inr}
use snowglobe.Exec.{Result, ok, err}
use snowglobe.Python.{ℤ}
use snowglobe.Broker.Records.{RequestView, CursorRef}
use snowglobe.Broker.State.{Broker, Environment, cancel_each, cancel_quietly}
use snowglobe.Broker.Methods.{submit}
use snowglobe.Broker.Invariant.{IsWellFormed}
use snowglobe.Broker.Progress.{after_expiry, after_expiry-Progress, Progress}
use snowglobe.Broker.Admission.{SameLimits, Outcome}
use snowglobe.Broker.Submit.{submit_cases}
use snowglobe.Broker.History.{Call, submits, step, run, step-Progress, step-IsWellFormed}

SameLimits-trans : (a b c : Broker) → SameLimits a b → SameLimits b c → SameLimits a c
SameLimits-trans a b c h k = (cc (h.0, k.0), cc (h.1, k.1), cc (h.2, k.2))

Progress-SameLimits : (a b : Broker) → Progress a b → SameLimits a b
Progress-SameLimits a b p = (p.same_ttl, p.same_pending, p.same_requests)

cancel_each-SameLimits :
    (cs : List CursorRef) (a b : Broker) → SameLimits a b → SameLimits a (cancel_each cs b)
unfolding cancel_each cancel_quietly
cancel_each-SameLimits [] a b h = h
cancel_each-SameLimits (c ∷ cs) a b h = cancel_each-SameLimits cs a _ h

module _ (env : Environment) where
  Outcome-SameLimits :
      (ttl : _) (b : Broker) (r : Result RequestView) (b' : Broker)
      → Outcome env ttl b (r, b')
      → SameLimits b b'
  Outcome-SameLimits ttl b (ok v) b' o = o.same_limits
  Outcome-SameLimits ttl b (err x) b' o = o.same_limits

  submit-SameLimits : (b : Broker) (z : ℤ) → IsWellFormed b → SameLimits b (submit env z b).1
  submit-SameLimits b z w = elim (submit_cases env b w z) [
    | inl (x, p, e) ↦ rw e (refl, refl, refl)
    | inr (ttl, p, s) ↦ rw s.eq (
        cancel_each-SameLimits s.cursors b s.state (
          SameLimits-trans b (after_expiry env b) s.state
            (Progress-SameLimits b _ (after_expiry-Progress env b))
            (Outcome-SameLimits ttl (after_expiry env b) s.result s.state s.outcome)))
  ]

  step-SameLimits : (c : Call) (b : Broker) → IsWellFormed b → SameLimits b (step env c b)
  unfolding step
  step-SameLimits (submits ttl) b w = submit-SameLimits b ttl w
  step-SameLimits c b w = Progress-SameLimits b (step env c b) (step-Progress env c b (λ h. h))

  pub run-SameLimits : (cs : List Call) (b : Broker) → IsWellFormed b → SameLimits b (run env cs b)
  unfolding run
  run-SameLimits [] b w = (refl, refl, refl)
  run-SameLimits (c ∷ cs) b w =
      SameLimits-trans b (step env c b) (run env cs (step env c b)) (step-SameLimits c b w)
        (run-SameLimits cs (step env c b) (step-IsWellFormed env c b w))
