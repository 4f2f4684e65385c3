-- ===== src/Snowflake/Governed.antt =====
-- From the SQL that the model submits to the SQL that the connector executes.
use snowglobe.Prelude.{
  ℕ, ◌+◌, ◌≤◌, ◌≡◌, refl, String, Bool, false, List, [], ◌∷◌, ◌++◌, All, arith, inl, inr,
  if◌then◌else◌,
}
use mathlib.Core.List.{append-nil}
use snowglobe.Exec.{ok, Result-cases}
use snowglobe.Arrow.Library.{PyArrow}
use snowglobe.Broker.State.{Environment}
use snowglobe.Broker.History.{Call}
use snowglobe.Config.Arguments.{ConnectorArguments}
use snowglobe.Limits.{mvp_statement_timeout_seconds}
use snowglobe.Sql.Glot.{Glot}
use snowglobe.Sql.Policy.{Policy, authorize}
use snowglobe.Sql.Soundness.{IsGoverned, authorize-IsGoverned}
use snowglobe.Snowflake.Connector.{Connector, World, Event, executed}
use snowglobe.Snowflake.Execute.{admit, work}
use snowglobe.Snowflake.Session.{idle, closed}
use snowglobe.Snowflake.Refinement.{execute-Served}
use snowglobe.Snowflake.Statements.{executions, IsOwn, follow_all-counts}

module _ (glot : Glot) (policy : Policy) (sql : String) where
  -- A statement is what the policy made of the SQL, and is governed; its time is bounded.
  abbrev pub IsGovernedEvent : Event → Type 0
  IsGovernedEvent (executed j s t) =
      (authorize glot policy sql ≡ ok s)
      × IsGoverned glot policy s
      × (t ≡ mvp_statement_timeout_seconds)
  IsGovernedEvent _ = Unit

  IsOwn-IsGovernedEvent :
      (governed : String) (e : Event)
      → authorize glot policy sql ≡ ok governed
      → IsOwn governed e
      → IsGovernedEvent e
  IsOwn-IsGovernedEvent governed (executed j s t) h (own, bounded) =
      let same : authorize glot policy sql ≡ ok s = rw own h in
      (same, authorize-IsGoverned glot policy sql s same, bounded)
  IsOwn-IsGovernedEvent governed _ h own = tt

  All-IsGovernedEvent :
      (governed : String) (es : List Event)
      → authorize glot policy sql ≡ ok governed
      → All (IsOwn governed) es
      → All IsGovernedEvent es
  All-IsGovernedEvent governed [] h own = tt
  All-IsGovernedEvent governed (e ∷ es) h own =
      (IsOwn-IsGovernedEvent governed e h own.0, All-IsGovernedEvent governed es h own.1)

  -- What the work behind a submission does to the connector.
  pub record IsRestrained {pa : PyArrow} {k : Connector pa} (w w' : World k) : Type 0 where
    pub events : List Event
    pub appended : w'.events ≡ w.events ++ events
    pub few : executions events ≤ 1
    pub governed : All IsGovernedEvent events
    pub unlocked : w'.is_active ≡ false

  flag-le-one : (b : Bool) (n m : ℕ) → n + 0 ≡ m → m ≡ (if b then 1 else 0) → n ≤ 1
  flag-le-one b n m h p = ground arith

  -- Whatever SQL is submitted, from a world where the lock is free: the work behind it executes at most
  -- one statement, which is what the policy made of that SQL; it is governed, and runs under the
  -- statement timeout. The lock is free afterwards.
  pub work-IsRestrained :
      (env : Environment) (pa : PyArrow) (k : Connector pa) (others : ℕ → List Call)
      (arguments : ConnectorArguments) (request_id : String) (w : World k)
      → w.is_active ≡ false
      → IsRestrained w (work env pa k others glot policy arguments sql request_id w).1
  unfolding work admit
  work-IsRestrained env pa k others arguments request_id w free =
      elim (Result-cases (authorize glot policy sql)) [
        | inr (e, p) ↦
            rw (p, work)
              (record {
                events = [];
                appended = rw append-nil refl;
                few = omega arith;
                governed = tt;
                unlocked = free;
              })
        | inl (governed, p) ↦
            let s = execute-Served env pa k others request_id governed arguments w free in
            let (counted, own) =
              follow_all-counts request_id governed idle (closed s.ran) s.events s.path in
            rw (p, work)
              (record {
                events = s.events;
                appended = s.appended;
                few = flag-le-one s.ran (executions s.events) _ counted refl;
                governed = All-IsGovernedEvent governed s.events p own;
                unlocked = s.unlocked;
              })
      ]
