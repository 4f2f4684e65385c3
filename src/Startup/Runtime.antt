-- ===== src/Startup/Runtime.antt =====
-- src/snowglobe/runtime.py, and `create_snowflake_executor` of snowflake_executor.py.
use snowglobe.Prelude.{String, Bool, false, Option, none, some, []}
use snowglobe.Exec.{Result, ok, err, value_error, Exec}
use snowglobe.Fallible.{◌>>=◌}
use snowglobe.Python.{pos}
use snowglobe.Arrow.Types.{Bytes}
use snowglobe.Broker.State.{Broker, Environment, init}
use snowglobe.Limits.{
  mvp_maximum_ttl, mvp_maximum_pending_requests, mvp_maximum_requests, mvp_maximum_viewport_rows,
}
use snowglobe.Sql.Policy.{Policy, from_view_names}
use snowglobe.Config.Toml.{Table}
use snowglobe.Config.Profiles.{load_snowflake_profile, load_snowglobe_profile}
use snowglobe.Config.PrivateKey.{Cryptography}
use snowglobe.Config.Arguments.{ConnectorArguments, build_connector_arguments}
use snowglobe.Control.Executor.{Executor}
use snowglobe.Control.Executor

-- What parsing and reading the file at a path give.
pub record Files : Type 0 where
  pub documents : String → Result Table
  pub keys : String → Result Bytes

-- `SnowflakeQueryAdmission`; its lock is the `is_active` of a world.
pub record SnowflakeQueryAdmission : Type 0 where
  pub policy : Policy
  pub connector_arguments : ConnectorArguments

-- A `BackgroundQueryExecutor` with its `_admit`.
pub record QueryExecutor : Type 0 where
  pub executor : Executor
  pub admit : SnowflakeQueryAdmission

-- `Runtime`, with the executor of its control plane.
pub record Runtime : Type 0 where
  pub broker : Broker
  pub executor : Option QueryExecutor

-- `BackgroundQueryExecutor.__init__`
unfoldable pub new_executor : Broker → SnowflakeQueryAdmission → QueryExecutor
new_executor b admission = record {
  executor = record { broker = b; tasks = []; closed = false };
  admit = admission;
}

module _ (is_blank : String → Bool) (crypto : Cryptography) (files : Files) where
  unfoldable pub create_snowflake_executor :
      Broker → String → String → String → Result QueryExecutor
  create_snowflake_executor b connections_path snowglobe_config_path profile_name = do
    connection ← load_snowflake_profile is_blank (files.documents connections_path) profile_name
    views ← load_snowglobe_profile is_blank (files.documents snowglobe_config_path) profile_name
    policy ← from_view_names views (pos mvp_maximum_viewport_rows)
    arguments ← build_connector_arguments crypto files.keys connection
    ok (new_executor b (record { policy = policy; connector_arguments = arguments }))

  -- the executor of `create_runtime`, which takes both files or neither
  unfoldable pub optional_executor :
      Broker → Option String → Option String → String → Result (Option QueryExecutor)
  optional_executor b none none profile_name = ok none
  optional_executor b (some connections_path) (some snowglobe_config_path) profile_name = do
    executor ← create_snowflake_executor b connections_path snowglobe_config_path profile_name
    ok (some executor)
  optional_executor b _ _ profile_name = err value_error

  unfoldable pub create_runtime : Option String → Option String → String → Result Runtime
  create_runtime connections_path snowglobe_config_path profile_name = do
    b ←
        init (pos mvp_maximum_ttl) (some (pos mvp_maximum_pending_requests))
          (some (pos mvp_maximum_requests))
    executor ← optional_executor b connections_path snowglobe_config_path profile_name
    ok (record { broker = b; executor = executor })

-- `Runtime.close`; the executor and the runtime share one broker.
unfoldable pub close : Environment → Exec Runtime (Unit {0})
close env rt = elim rt.executor [
  | none ↦ (ok tt, rt)
  | some q ↦
      let (r, s) = Executor.close env q.executor in
      (r, record { broker = s.broker; executor = some (record q { executor = s }) })
]
