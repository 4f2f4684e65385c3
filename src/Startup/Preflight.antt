-- ===== src/Startup/Preflight.antt =====
-- src/snowglobe/preflight.py.
use snowglobe.Prelude.{ℕ, String, Bool, true, List, if◌then◌else◌}
use snowglobe.Exec.{Result, ok, err, is_exception, Exec, pure, lift, ◌>>=◌, ◌>>◌}
use snowglobe.Python.{pos}
use snowglobe.Arrow.Library.{PyArrow}
use snowglobe.Broker.Records.{CursorRef}
use snowglobe.Broker.State.{Environment}
use snowglobe.Broker.History.{Call}
use snowglobe.Limits.{mvp_maximum_viewport_rows}
use snowglobe.Sql.Policy.{from_view_names}
use snowglobe.Config.Profiles.{load_snowflake_profile, load_snowglobe_profile}
use snowglobe.Config.PrivateKey.{Cryptography}
use snowglobe.Config.Arguments.{ConnectorArguments, build_connector_arguments}
use snowglobe.Snowflake.Connector.{Connector, World}
use snowglobe.Snowflake.Cursor.{request_cursor}
use snowglobe.Startup.Runtime.{Files}
use snowglobe.Startup.Console.{Console, line, failed, print, progress, beneath}

-- What argparse makes of the command line.
pub record Arguments : Type 0 where
  pub connections : String
  pub snowglobe_config : String
  pub profile : String
  pub connect : Bool

module _ (env : Environment) (pa : PyArrow) (k : Connector pa) (others : ℕ → List Call) where
  -- the body `pass` of the `with`
  unfoldable pub pass : CursorRef → Exec (World k) (Unit {0})
  pass cursor w = (ok tt, w)

  -- the `if check_connection`
  unfoldable pub check_connection :
      Bool → Bool → ConnectorArguments → Exec (Console (World k)) (Unit {0})
  unfolding ◌>>=◌
  check_connection wanted has_progress arguments =
      if wanted
      then (do
        progress has_progress
            "Connecting to Snowflake and opening a cursor without executing SQL (30-second login timeout; an in-flight socket operation may take longer)..."
        beneath (request_cursor env pa k others arguments pass)
        progress has_progress "Snowflake connection and cursor check passed.")
      else pure tt

module _ (env : Environment) (pa : PyArrow) (k : Connector pa) (others : ℕ → List Call)
    (is_blank : String → Bool) (crypto : Cryptography) (files : Files) where
  unfoldable pub run_preflight :
      String → String → String → Bool → Bool → Exec (Console (World k)) (Unit {0})
  unfolding ◌>>=◌ lift
  run_preflight connections_path snowglobe_config_path profile_name wanted has_progress = do
    progress has_progress "Checking Snowflake connection profile..."
    connection ←
        lift (load_snowflake_profile is_blank (files.documents connections_path) profile_name)
    progress has_progress "Checking Snowglobe policy profile and allowed views..."
    views ←
        lift (load_snowglobe_profile is_blank (files.documents snowglobe_config_path) profile_name)
    lift (from_view_names views (pos mvp_maximum_viewport_rows))
    progress has_progress "Checking RSA private key..."
    arguments ← lift (build_connector_arguments crypto files.keys connection)
    check_connection env pa k others wanted has_progress arguments

  -- the exit code of `main`
  unfoldable pub exit_code : Result (Unit {0}) → Exec (Console (World k)) ℕ
  exit_code (ok _) c = (ok 0, print (line "Snowglobe preflight passed.") c)
  exit_code (err e) c = if is_exception e then (ok 1, print (failed e) c) else (err e, c)

  unfoldable pub main : Arguments → Exec (Console (World k)) ℕ
  main a c =
      let (r, c') = run_preflight a.connections a.snowglobe_config a.profile a.connect true c in
      exit_code r c'
