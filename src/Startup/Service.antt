-- ===== src/Startup/Service.antt =====
-- A service that was started from the two files, and the SQL that it runs.
use snowglobe.Prelude.{ℕ, String, ◌≡◌, Bool, false, some, List}
use snowglobe.Exec.{ok}
use snowglobe.Arrow.Library.{PyArrow}
use snowglobe.Broker.State.{Environment}
use snowglobe.Broker.History.{Call}
use snowglobe.Sql.Glot.{Glot}
use snowglobe.Sql.Views.{Stand}
use snowglobe.Config.Loading.{IsLoaded}
use snowglobe.Config.PrivateKey.{Cryptography}
use snowglobe.Snowflake.Connector.{Connector, World}
use snowglobe.Snowflake.Execute.{work}
use snowglobe.Snowflake.Governed.{IsRestrained, work-IsRestrained}
use snowglobe.Startup.Runtime.{
  Files, Runtime, QueryExecutor, SnowflakeQueryAdmission, create_runtime,
}
use snowglobe.Startup.Configured.{create_runtime-IsConfigured}

-- the work of an admission
abbrev pub work_of :
    Environment
    → (pa : PyArrow) → (k : Connector pa) → (ℕ → List Call)
    → Glot
    → SnowflakeQueryAdmission
    → String
    → String
    → World k
    → World k
work_of env pa k others glot admission sql request_id w =
    (work env pa k others glot admission.policy admission.connector_arguments sql request_id w).1

module _ (is_blank : String → Bool) (crypto : Cryptography) (files : Files)
    (snowglobe_config_path profile_name : String) where
  -- What the policy file has to say about the work of a service.
  pub record IsGovernedByFile (glot : Glot) (sql : String) (rt : Runtime) {pa : PyArrow}
      {k : Connector pa} (w : World k) (run : SnowflakeQueryAdmission → World k) : Type 0 where
    pub views : List String
    pub listed : IsLoaded is_blank (files.documents snowglobe_config_path) profile_name views
    pub executor : QueryExecutor
    pub held : rt.executor ≡ some executor
    pub stand : Stand views executor.admit.policy.allowed_views
    pub restrained : IsRestrained glot executor.admit.policy sql w (run executor.admit)

  -- In a service that was started from two files, the work behind any SQL, from a world where the lock is
  -- free, executes at most one statement. It is what the policy made of that SQL, under the statement
  -- timeout, and is governed by a policy whose allowed views are those that the policy file lists for the
  -- profile. The lock is free afterwards.
  pub create_runtime-IsGovernedByFile :
      (connections_path : String) (rt : Runtime) (glot : Glot) (sql : String) (env : Environment)
      (pa : PyArrow) (k : Connector pa) (others : ℕ → List Call) (request_id : String) (w : World k)
      → create_runtime is_blank crypto files
          (some connections_path)
          (some snowglobe_config_path)
          profile_name
        ≡ ok rt
      → w.is_active ≡ false
      → IsGovernedByFile glot sql rt w
          (λ admission. work_of env pa k others glot admission sql request_id w)
  create_runtime-IsGovernedByFile connections_path rt glot sql env pa k others request_id w h free =
      let c =
        create_runtime-IsConfigured is_blank crypto files connections_path snowglobe_config_path
          profile_name rt h in
      let e = c.executor.admit in
      record {
        views = c.created.views;
        listed = c.created.loaded;
        executor = c.executor;
        held = c.held;
        stand = c.created.stand;
        restrained =
            work-IsRestrained glot e.policy sql env pa k others e.connector_arguments request_id w
              free;
      }
