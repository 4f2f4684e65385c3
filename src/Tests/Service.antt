-- ===== src/Tests/Service.antt =====
-- What the theorems on the start of the service say of concrete files.
use snowglobe.Prelude.{◌≡◌, refl, true, false, Option, none, some, [], ◌∷◌, str_eq, if◌then◌else◌}
use snowglobe.Exec.{Result, Exec, ok}
use snowglobe.Broker.State.{Broker}
use snowglobe.Sql.Glot.{Glot, identifier, Table, from_table, Limit, number_limit}
use snowglobe.Snowflake.Connector.{
  logs_suppressed, connected, opened, printed, executed, fetched, cursor_closed, connection_closed,
}
use snowglobe.Startup.Runtime.{Runtime, SnowflakeQueryAdmission, new_executor, create_runtime}
use snowglobe.Startup.Console.{Console}
use snowglobe.Startup.Preflight.{Arguments, run_preflight, main}
use snowglobe.Startup.LocalServer
use snowglobe.Startup.Agreement.{finished, run_preflight-eq-create_runtime}
use snowglobe.Startup.Harmless.{Rehearsed, main-Rehearsed}
use snowglobe.Startup.Bounded.{IsBounded, create_runtime-IsBounded}
use snowglobe.Broker.History.{run, submits, lists}
use snowglobe.Python.{pos}
use snowglobe.Startup.Exits.{main_passes, main_fails}
use snowglobe.Startup.Configured.{IsConfigured, create_runtime-IsConfigured}
use snowglobe.Startup.Service.{work_of, IsGovernedByFile, create_runtime-IsGovernedByFile}
use snowglobe.Tests.Arrow.{row_writer}
use snowglobe.Tests.Broker.{ticking}
use snowglobe.Tests.Config.{only_spaces}
use snowglobe.Tests.Snowflake.{counting, start, nobody, arguments}
use snowglobe.Tests.Sql.{toy, select, Select}
use snowglobe.Tests.Startup.{startup_program, crypto, files, quiet, command}

abbrev new_broker : Broker
new_broker = record {
  maximum_ttl = 300000000;
  maximum_pending_requests = some 1;
  maximum_requests = some 100;
  records = [];
  reads = 0;
  draws = 0;
  cancels = [];
}

abbrev created : Runtime
created = record {
  broker = new_broker;
  executor = some (
      new_executor new_broker (record {
        policy = record {
          allowed_views = ("DB", "MART", "SALES") ∷ ("DB", "MART", "COSTS") ∷ [];
          maximum_rows = 50;
        };
        connector_arguments = arguments;
      }));
}

creates :
    create_runtime only_spaces crypto files
      (some "connections.toml")
      (some "snowglobe.toml")
      "analyst"
    ≡ ok created
unfolding startup_program
creates = refl

-- The two tables of the toy texts, under the names of the files.
abbrev mart_sales : Table
mart_sales = record {
  this = identifier (some "SALES") true;
  catalog = some (identifier (some "DB") true);
  db = some (identifier (some "MART") true);
  catalog_text = "DB";
  db_text = "MART";
}

abbrev mart_select : Option Limit → Select
mart_select l = record (select l) { source = from_table mart_sales }

abbrev mart : Glot
mart = record toy {
  parse = λ s.
      if str_eq s "select"
      then some (mart_select none ∷ [])
      else if str_eq s "select limit 51"
      then some (mart_select (some (number_limit 51)) ∷ [])
      else none;
}

abbrev admission : SnowflakeQueryAdmission
admission = record {
  policy = record {
    allowed_views = ("DB", "MART", "SALES") ∷ ("DB", "MART", "COSTS") ∷ [];
    maximum_rows = 50;
  };
  connector_arguments = arguments;
}

runs :
    (work_of ticking row_writer
      (counting (ok tt))
      nobody
      mart
      admission
      "select"
      "t"
      (start (ok tt))).events
    ≡ logs_suppressed
      ∷ connected (ok 7)
      ∷ opened 7 (ok 8)
      ∷ printed "t" "select limit 51"
      ∷ executed 8 "select limit 51" 60
      ∷ fetched 8
      ∷ cursor_closed 8
      ∷ connection_closed 7
      ∷ []
unfolding startup_program
runs = refl

run_preflight-eq-create_runtime_example :
    ((run_preflight ticking row_writer
        (counting (ok tt))
        nobody
        only_spaces
        crypto
        files
        "connections.toml"
        "snowglobe.toml"
        "analyst"
        false
        true
        quiet).0
      ≡ finished (
          create_runtime only_spaces crypto files
            (some "connections.toml")
            (some "snowglobe.toml")
            "analyst"))
    × ((run_preflight ticking row_writer
          (counting (ok tt))
          nobody
          only_spaces
          crypto
          files
          "connections.toml"
          "snowglobe.toml"
          "analyst"
          false
          true
          quiet).1.state
        ≡ start (ok tt))
run_preflight-eq-create_runtime_example =
    run_preflight-eq-create_runtime ticking row_writer (counting (ok tt)) nobody only_spaces crypto
      files "connections.toml" "snowglobe.toml" "analyst" true quiet

main-Rehearsed_example :
    Rehearsed ticking row_writer
      (counting (ok tt))
      nobody
      (start (ok tt))
      (main ticking row_writer
        (counting (ok tt))
        nobody
        only_spaces
        crypto
        files
        command
        quiet).1.state
main-Rehearsed_example =
    main-Rehearsed ticking row_writer (counting (ok tt)) nobody only_spaces crypto files command
      quiet

create_runtime-IsConfigured_example :
    IsConfigured only_spaces crypto files "connections.toml" "snowglobe.toml" "analyst" created
create_runtime-IsConfigured_example =
    create_runtime-IsConfigured only_spaces crypto files "connections.toml" "snowglobe.toml"
      "analyst" created creates

create_runtime-IsGovernedByFile_example :
    IsGovernedByFile only_spaces crypto files "snowglobe.toml" "analyst" mart "select" created
      (start (ok tt))
      (λ a.
        work_of ticking row_writer (counting (ok tt)) nobody mart a "select" "t" (start (ok tt)))
create_runtime-IsGovernedByFile_example =
    create_runtime-IsGovernedByFile only_spaces crypto files "snowglobe.toml" "analyst"
      "connections.toml" created mart "select" ticking row_writer (counting (ok tt)) nobody "t"
      (start (ok tt)) creates refl

abbrev offline : Arguments
offline = record command { connect = false }

abbrev misspelt : Arguments
misspelt = record offline { profile = "other" }

abbrev terminal : Console (Unit {0})
terminal = record { state = tt; printed = [] }

abbrev composed : Runtime → Result Runtime
composed rt = ok rt

abbrev serving : Runtime → Exec (Unit {0}) (Unit {0})
serving rt s = (ok tt, s)

main_passes_example :
    (rt : Runtime) × (create_runtime only_spaces crypto files
        (some "connections.toml")
        (some "snowglobe.toml")
        "analyst"
      ≡ ok rt)
    × ((LocalServer.compose composed serving only_spaces crypto files
          (record {
            connections = some "connections.toml";
            snowglobe_config = some "snowglobe.toml";
            profile = "analyst";
          })
          terminal).0
        ≡ ok rt)
unfolding startup_program
main_passes_example =
    main_passes ticking row_writer (counting (ok tt)) nobody only_spaces crypto files composed
      serving offline quiet terminal refl refl

main_fails_example :
    ((LocalServer.main composed serving only_spaces crypto files
        (record {
          connections = some "connections.toml";
          snowglobe_config = some "snowglobe.toml";
          profile = "other";
        })
        terminal).0
      ≡ ok 1)
    × ((LocalServer.main composed serving only_spaces crypto files
          (record {
            connections = some "connections.toml";
            snowglobe_config = some "snowglobe.toml";
            profile = "other";
          })
          terminal).1.state
        ≡ tt)
unfolding startup_program
main_fails_example =
    main_fails ticking row_writer (counting (ok tt)) nobody only_spaces crypto files composed
      serving misspelt quiet terminal refl refl

create_runtime-IsBounded_example :
    IsBounded (run ticking (submits (pos 50) ∷ submits (pos 50) ∷ lists ∷ []) created.broker)
create_runtime-IsBounded_example =
    create_runtime-IsBounded only_spaces crypto files (some "connections.toml")
      (some "snowglobe.toml") "analyst" created ticking
      (submits (pos 50) ∷ submits (pos 50) ∷ lists ∷ []) creates
