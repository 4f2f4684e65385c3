-- ===== src/Tests/Snowflake.antt =====
-- The work behind a query, on a small stand-in for the connector.
use snowglobe.Prelude.{ℕ, ◌+◌, ◌-◌, ◌≡◌, refl, true, false, none, List, [], ◌∷◌}
use snowglobe.Exec.{
  Result, ok, err, os_error, request_unavailable, finally, after_cleanup, lift, modify, ◌>>=◌,
  suppress_unavailable, forgive_unavailable,
}
use snowglobe.Python.{pos}
use snowglobe.Arrow.Types.{DataType}
use snowglobe.Arrow.Admission.{InMemorySource}
use snowglobe.Broker.Methods
use snowglobe.Broker.History.{Call}
use snowglobe.Config.Arguments.{ConnectorArguments}
use snowglobe.Snowflake.Connector.{
  Connector, World, table, note, calling, on_broker, logs_suppressed, connected, opened, printed,
  executed, cursor_closed, connection_closed, other_handler,
}
use snowglobe.Snowflake.Cursor.{
  silence, suppress_connector_logs, connect, open_cursor, close_cursor, with_cursor,
  with_connection, close_connection, request_cursor,
}
use snowglobe.Snowflake.Fetch.{
  all_empty, require_empty_table, empty_table, yield_from, record_batches, admit_tables,
  empty_result_table, first_table, fetch_admitted_result,
}
use snowglobe.Snowflake.Execute.{
  mark_started, release, run_sql, use_cursor, execute_locked, execute, admit, work,
}
use snowglobe.Snowflake.Refinement.{Served, execute-Served}
use snowglobe.Snowflake.Governed.{IsRestrained, work-IsRestrained}
use snowglobe.Tests.Broker.{ticking, empty}
use snowglobe.Tests.Broker
use snowglobe.Tests.Sql.{toy, policy}
use snowglobe.Tests.Sql
use snowglobe.Tests.Arrow.{row_writer, two_rows}
use snowglobe.Tests.Arrow

unfoldable pub snowflake_program : Unit {0}
unfolding Broker.program Sql.program Arrow.program finally after_cleanup lift modify ◌>>=◌
    suppress_unavailable forgive_unavailable note calling on_broker silence suppress_connector_logs
    connect open_cursor close_cursor with_cursor with_connection close_connection request_cursor
    all_empty require_empty_table empty_table yield_from record_batches admit_tables
    empty_result_table first_table fetch_admitted_result mark_started release run_sql use_cursor
    execute_locked execute admit work
snowflake_program = tt

-- The state is the number of connections and cursors that are open.
abbrev pub counting : Result (Unit {0}) → Connector row_writer
counting executes = record {
  State = ℕ;
  connect = λ arguments n. (ok 7, n + 1);
  open_cursor = λ c n. (ok 8, n + 1);
  close_cursor = λ j n. (ok tt, n - 1);
  close_connection = λ c n. (ok tt, n - 1);
  execute = λ j sql timeout n. (executes, n);
  fetch_arrow_batches = λ j n. (
    ok (record {
      items =
          table (record { schema = DataType.string ∷ []; num_rows = 2; batches = two_rows ∷ [] })
          ∷ [];
      ending = ok tt;
    }),
    n,
  );
  get_result_batches = λ j n. (ok none, n);
}

abbrev pub arguments : ConnectorArguments
arguments = record {
  account = "account";
  user = "user";
  authenticator = "SNOWFLAKE_JWT";
  private_key = 1 ∷ [];
  database = "DB";
  warehouse = "WH";
  role = "ROLE";
  client_prefetch_threads = 1;
  login_timeout = 30;
  network_timeout = 60;
  socket_timeout = 15;
  abort_detached_query = true;
  statement_queued_timeout_in_seconds = 15;
  statement_timeout_in_seconds = 60;
}

abbrev pub start : (executes : Result (Unit {0})) → World (counting executes)
start executes = record {
  driver = 0;
  events = [];
  ticks = 0;
  broker = (Methods.submit ticking (pos 50) empty).1;
  logger = record { handlers = other_handler ∷ []; level = 0; propagate = true };
  is_active = false;
}

abbrev pub nobody : ℕ → List Call
nobody n = []

abbrev source : InMemorySource row_writer
source = record { schema = DataType.string ∷ []; batches = two_rows ∷ [] }

returns :
    (work ticking row_writer
      (counting (ok tt))
      nobody
      toy
      policy
      arguments
      "select"
      "t"
      (start (ok tt))).0
    ≡ ok source
unfolding snowflake_program
returns = refl

-- A statement that fails leaves nothing open.
cleans_up :
    (execute ticking row_writer
      (counting (err os_error))
      nobody
      arguments
      "t"
      "select limit 51"
      (start (err os_error))).1.events
    ≡ logs_suppressed
      ∷ connected (ok 7)
      ∷ opened 7 (ok 8)
      ∷ printed "t" "select limit 51"
      ∷ executed 8 "select limit 51" 60
      ∷ cursor_closed 8
      ∷ connection_closed 7
      ∷ []
unfolding snowflake_program
cleans_up = refl

busy :
    (execute ticking row_writer
      (counting (ok tt))
      nobody
      arguments
      "t"
      "select limit 51"
      (record (start (ok tt)) { is_active = true })).0
    ≡ err request_unavailable
unfolding snowflake_program
busy = refl

execute-Served_example :
    Served ticking row_writer
      (counting (err os_error))
      nobody
      "t"
      "select limit 51"
      arguments
      (start (err os_error))
      (execute ticking row_writer
        (counting (err os_error))
        nobody
        arguments
        "t"
        "select limit 51"
        (start (err os_error)))
execute-Served_example =
    execute-Served ticking row_writer (counting (err os_error)) nobody "t" "select limit 51"
      arguments (start (err os_error)) refl

work-IsRestrained_example :
    IsRestrained toy policy "select"
      (start (ok tt))
      (work ticking row_writer
        (counting (ok tt))
        nobody
        toy
        policy
        arguments
        "select"
        "t"
        (start (ok tt))).1
work-IsRestrained_example =
    work-IsRestrained toy policy "select" ticking row_writer (counting (ok tt)) nobody arguments "t"
      (start (ok tt)) refl
