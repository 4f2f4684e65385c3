-- ===== src/Broker/History.antt =====
-- Any history of calls of the broker, interleaved in any way: the lock makes each call one step.
use snowglobe.Prelude.{ℕ, String, ◌≡◌, sym, subst, arith, none, some, Option, List, [], ◌∷◌}
use snowglobe.Exec.{ok}
use snowglobe.Python.{ℤ, require_positive}
use snowglobe.Broker.Records.{CursorRef, SourceRef, count_pending}
use snowglobe.Broker.State.{Broker, Environment, init}
use snowglobe.Broker.Methods.{
  submit, register_cursor, release_cursor, publish, fail, list_requests, get_request, open_source,
  cancel,
}
use snowglobe.Broker.Progress.{Progress}
use snowglobe.Broker.Changes.{
  register_cursor-Progress, release_cursor-Progress, publish-Progress, fail-Progress,
  list_requests-Progress, get_request-Progress, open_source-Progress, cancel-Progress,
}
use snowglobe.Broker.Invariant.{Within, WellFormed, IsWellFormed, Progress-IsWellFormed}
use snowglobe.Broker.Submit.{submit-IsWellFormed}

-- The calls of the broker by the executor, the control plane and the viewer's routes.
pub data Call : Type 0 where
  submits : ℤ → Call
  registers : String → CursorRef → Call
  releases : String → CursorRef → Call
  publishes : String → SourceRef → Call
  fails : String → Call
  lists : Call
  gets : String → Call
  opens : String → Call
  cancels : String → Call

module _ (env : Environment) where
  unfoldable pub step : Call → Broker → Broker
  step (submits ttl) b = (submit env ttl b).1
  step (registers k c) b = (register_cursor env k c b).1
  step (releases k c) b = (release_cursor env k c b).1
  step (publishes k s) b = (publish env k s b).1
  step (fails k) b = (fail env k b).1
  step lists b = (list_requests env b).1
  step (gets k) b = (get_request env k b).1
  step (opens k) b = (open_source env k b).1
  step (cancels k) b = (cancel env k b).1

  unfoldable pub run : List Call → Broker → Broker
  unfolding step
  run [] b = b
  run (c ∷ cs) b = run cs (step c b)

  abbrev pub IsSubmission : Call → Type 0
  IsSubmission (submits ttl) = Unit
  IsSubmission _ = ⊥

  -- Every call but a submission changes the records lawfully, one by one.
  pub step-Progress : (c : Call) (b : Broker) → ¬ IsSubmission c → Progress b (step c b)
  unfolding step
  step-Progress (submits ttl) b h = absurd (h tt)
  step-Progress (registers k c) b h = register_cursor-Progress env k b c
  step-Progress (releases k c) b h = release_cursor-Progress env k b c
  step-Progress (publishes k s) b h = publish-Progress env k b s
  step-Progress (fails k) b h = fail-Progress env k b
  step-Progress lists b h = list_requests-Progress env b
  step-Progress (gets k) b h = get_request-Progress env k b
  step-Progress (opens k) b h = open_source-Progress env k b
  step-Progress (cancels k) b h = cancel-Progress env k b

  pub step-IsWellFormed : (c : Call) (b : Broker) → IsWellFormed b → IsWellFormed (step c b)
  unfolding step
  step-IsWellFormed (submits ttl) b w = submit-IsWellFormed env b w ttl
  step-IsWellFormed c b w = Progress-IsWellFormed b (step c b) (step-Progress c b (λ h. h)) w

  run_from-IsWellFormed : (cs : List Call) (b : Broker) → IsWellFormed b → IsWellFormed (run cs b)
  unfolding run
  run_from-IsWellFormed [] b w = w
  run_from-IsWellFormed (c ∷ cs) b w = run_from-IsWellFormed cs (step c b) (step-IsWellFormed c b w)

Within-zero : (l : Option ℕ) → Within l 0
Within-zero none = tt
Within-zero (some l) = omega arith

WellFormed-nil : (waiting requests : Option ℕ) → WellFormed waiting requests []
unfolding count_pending
WellFormed-nil waiting requests = record {
  keyed = tt;
  consistent = tt;
  distinct = tt;
  few_pending = Within-zero waiting;
  few_requests = Within-zero requests;
}

init-IsWellFormed :
    (z : ℤ) (waiting requests : Option ℤ) (b : Broker)
    → init z waiting requests ≡ ok b
    → IsWellFormed b
unfolding init require_positive
init-IsWellFormed z waiting requests b h =
    let e : b.records ≡ [] = ground arith in
    subst (WellFormed b.maximum_pending_requests b.maximum_requests) (sym e) (WellFormed-nil _ _)

-- In every state that a history of calls reaches from a new broker, whatever the clock and the
-- tokens are: each key is its record's id and stands once; only complete requests hold a source,
-- and only pending ones a cursor; and neither limit is exceeded.
pub run-IsWellFormed :
    (env : Environment) (z : ℤ) (waiting requests : Option ℤ) (b : Broker) (cs : List Call)
    → init z waiting requests ≡ ok b
    → IsWellFormed (run env cs b)
run-IsWellFormed env z waiting requests b cs h =
    run_from-IsWellFormed env cs b (init-IsWellFormed z waiting requests b h)
