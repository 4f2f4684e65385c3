-- ===== src/Control/Executor.antt =====
-- src/snowglobe/executor.py: `BackgroundQueryExecutor`. What an `await` lets happen meanwhile is a
-- list of calls of the broker: those of the work, of the viewer and of other requests.
use snowglobe.Prelude.{String, Bool, true, List, [], ◌∷◌, ◌++◌, if◌then◌else◌, Option, none, some}
use snowglobe.Exec.{
  Result, ok, err, Error, is_exception, Exec, pure, raise, lift, gets, modify, ◌>>=◌, ◌>>◌,
  suppress_unavailable, request_unavailable, still_running,
}
use snowglobe.Python.{ℤ}
use snowglobe.Broker.Records.{RequestView, SourceRef, is_pending}
use snowglobe.Broker.State.{Broker, Environment}
use snowglobe.Broker.Methods.{submit, publish, fail, list_requests, get_request, cancel}
use snowglobe.Broker.History.{Call, run}

pub record Executor : Type 0 where
  pub broker : Broker
  pub tasks : List String
  pub closed : Bool

pub record SubmittedQuery : Type 0 where
  pub request : RequestView
  pub governed_sql : String

-- What happens to one `_run` while it waits. Work without an outcome never ends.
pub record Awaits : Type 0 where
  pub before : List Call
  pub expiry_first : Bool
  pub between : List Call
  pub outcome : Option (Result SourceRef)
  pub after : List Call

-- a call of the broker, by the executor
unfoldable pub on_broker {ℓ} : {A : Type ℓ} → Exec Broker A → Exec Executor A
on_broker m s = let (r, b) = m s.broker in (r, record s { broker = b })

module _ (env : Environment) where
  -- the calls that others make during an `await`
  unfoldable pub meanwhile : List Call → Exec Broker (Unit {0})
  meanwhile calls b = (ok tt, run env calls b)

  -- the first tests of `_run` after its `asyncio.wait`
  unfoldable pub notice_expiry : String → Bool → Exec Broker (Unit {0})
  notice_expiry request_id expiry_first =
      if expiry_first then suppress_unavailable (get_request env request_id) else pure tt

  -- the `try` of `_run`, up to `await work_task`
  unfoldable pub wait_for_work : String → Awaits → Exec Broker (Unit {0})
  unfolding ◌>>=◌
  wait_for_work request_id w = do
    meanwhile w.before
    notice_expiry request_id w.expiry_first
    meanwhile w.between

  -- the `try` of `_run`, for work that ends
  unfoldable pub try_run : String → Awaits → Result SourceRef → Exec Broker RequestView
  unfolding ◌>>=◌
  try_run request_id w outcome = do
    wait_for_work request_id w
    source ← lift outcome
    meanwhile w.after
    publish env request_id source

  -- the `except BaseException` of `_run`
  unfoldable pub fail_after : String → Exec Broker (Unit {0})
  fail_after request_id = suppress_unavailable (fail env request_id)

  -- `_run`, for work that ends with an outcome
  unfoldable pub run_ended : String → Awaits → Result SourceRef → Exec Broker (Unit {0})
  unfolding fail_after
  run_ended request_id w outcome b = elim (try_run request_id w outcome b).0 [
    | ok v ↦ (ok tt, (try_run request_id w outcome b).1)
    | err e ↦ fail_after request_id (try_run request_id w outcome b).1
  ]

  -- `_run`, for work that never ends: `await work_task` does not return
  unfoldable pub run_hanging : String → Awaits → Exec Broker (Unit {0})
  unfolding fail_after
  run_hanging request_id w b = elim (wait_for_work request_id w b).0 [
    | ok v ↦ (err still_running, (wait_for_work request_id w b).1)
    | err e ↦ fail_after request_id (wait_for_work request_id w b).1
  ]

  -- `_run`
  unfoldable pub run_task : String → Awaits → Exec Broker (Unit {0})
  run_task request_id w = elim w.outcome [
    | none ↦ run_hanging request_id w
    | some outcome ↦ run_ended request_id w outcome
  ]

  -- the `except Exception` around `create_task`
  unfoldable pub abandon : String → Error → Exec Broker SubmittedQuery
  abandon request_id e b =
      if is_exception e
      then (let (r, b') = suppress_unavailable (fail env request_id) b in
          elim r [ ok _ ↦ (err e, b') | err e' ↦ (err e', b') ])
      else (err e, b)

  -- the last lines of `submit`, for what `create_task` did
  unfoldable pub schedule : Result (Unit {0}) → String → RequestView → Exec Executor SubmittedQuery
  schedule (err e) governed_sql request s = on_broker (abandon request.request_id e) s
  schedule (ok _) governed_sql request s = (
    ok (record { request = request; governed_sql = governed_sql }),
    record s { tasks = s.tasks ++ request.request_id ∷ [] },
  )

  -- `submit`; `admitted` is what `self._admit(sql)` gave
  unfoldable pub submit_query : Result String → Result (Unit {0}) → ℤ → Exec Executor SubmittedQuery
  unfolding ◌>>=◌
  submit_query admitted created requested_ttl = do
    closed ← gets (λ s. s.closed)
    if closed then raise request_unavailable else do
      governed_sql ← lift admitted
      request ← on_broker (submit env requested_ttl)
      schedule created governed_sql request

  -- the loop of `close`
  unfoldable pub cancel_pending : List RequestView → Exec Broker (Unit {0})
  unfolding ◌>>=◌
  cancel_pending [] = pure tt
  cancel_pending (v ∷ vs) =
      let rest = cancel_pending vs in
      if is_pending v.status
      then (do suppress_unavailable (cancel env v.request_id); rest)
      else rest

  -- `close`, up to the `gather` of the tasks, which raises nothing
  unfoldable pub close : Exec Executor (Unit {0})
  unfolding ◌>>=◌
  close = do
    modify (λ s. record s { closed = true })
    on_broker (do requests ← list_requests env; cancel_pending requests)
