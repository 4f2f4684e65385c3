-- ===== src/Snowflake/Execute.antt =====
-- src/snowglobe/snowflake_executor.py: `SnowflakeQueryAdmission`, with what the executor gives it as
-- `mark_started`.
use snowglobe.Prelude.{ℕ, String, true, false, List, if◌then◌else◌}
use snowglobe.Exec.{
  Result, ok, err, Exec, modify, finally, ◌>>=◌, ◌>>◌, suppress_unavailable, request_unavailable,
}
use snowglobe.Arrow.Library.{PyArrow}
use snowglobe.Arrow.Admission.{InMemorySource}
use snowglobe.Broker.Records.{CursorRef, RequestView}
use snowglobe.Broker.State.{Environment}
use snowglobe.Broker.Methods.{register_cursor, release_cursor}
use snowglobe.Broker.History.{Call}
use snowglobe.Config.Arguments.{ConnectorArguments}
use snowglobe.Limits.{mvp_statement_timeout_seconds}
use snowglobe.Sql.Glot.{Glot}
use snowglobe.Sql.Policy.{Policy, authorize}
use snowglobe.Snowflake.Connector.{Connector, World, calling, on_broker, note, printed, executed}
use snowglobe.Snowflake.Cursor.{request_cursor}
use snowglobe.Snowflake.Fetch.{fetch_admitted_result}

module _ (env : Environment) (pa : PyArrow) (k : Connector pa) (others : ℕ → List Call) where
  -- `mark_started(cursor)`: the cursor becomes that of the pending request.
  unfoldable pub mark_started : String → CursorRef → Exec (World k) RequestView
  mark_started request_id cursor = on_broker env pa k others (register_cursor env request_id cursor)

  -- what `mark_started` returns
  unfoldable pub release : String → CursorRef → Exec (World k) (Unit {0})
  release request_id cursor =
      on_broker env pa k others (suppress_unavailable (release_cursor env request_id cursor))

  -- the inner `try` of `_execute`
  unfoldable pub run_sql : String → String → CursorRef → Exec (World k) (InMemorySource pa)
  unfolding ◌>>=◌
  run_sql request_id governed_sql cursor = do
    modify (note env pa k others (printed request_id governed_sql))
    calling env pa k others (λ _. executed cursor governed_sql mvp_statement_timeout_seconds)
        (k.execute cursor governed_sql mvp_statement_timeout_seconds)
    fetch_admitted_result pa env k others cursor

  -- the body of the `with`
  unfoldable pub use_cursor : String → String → CursorRef → Exec (World k) (InMemorySource pa)
  unfolding ◌>>=◌
  use_cursor request_id governed_sql cursor = do
    mark_started request_id cursor
    finally (run_sql request_id governed_sql cursor) (release request_id cursor)

  -- the `try` under the lock
  unfoldable pub execute_locked :
      ConnectorArguments → String → String → Exec (World k) (InMemorySource pa)
  execute_locked arguments request_id governed_sql =
      request_cursor env pa k others arguments (use_cursor request_id governed_sql)

  -- `_execute`
  unfoldable pub execute : ConnectorArguments → String → String → Exec (World k) (InMemorySource pa)
  execute arguments request_id governed_sql w =
      if w.is_active
      then (err request_unavailable, w)
      else finally (execute_locked arguments request_id governed_sql)
          (modify (λ w'. record w' { is_active = false })) (record w { is_active = true })

  -- `__call__`, and the work that it returns, once that runs for a request
  unfoldable pub admit : Glot → Policy → String → Result String
  admit glot policy sql = authorize glot policy sql

  unfoldable pub work :
      Glot → Policy → ConnectorArguments → String → String → Exec (World k) (InMemorySource pa)
  work glot policy arguments sql request_id w = elim (admit glot policy sql) [
    | err e ↦ (err e, w)
    | ok governed_sql ↦ execute arguments request_id governed_sql w
  ]
