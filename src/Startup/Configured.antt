-- ===== src/Startup/Configured.antt =====
-- The runtime that was created from the two files.
use snowglobe.Prelude.{String, ◌≡◌, refl, Bool, false, some, List, [], arith}
use snowglobe.Exec.{ok}
use snowglobe.Fallible.{bind_returned}
use snowglobe.Python.{pos, require_positive}
use snowglobe.Broker.State.{Broker, init}
use snowglobe.Limits.{
  mvp_maximum_ttl, mvp_maximum_pending_requests, mvp_maximum_requests, mvp_maximum_viewport_rows,
}
use snowglobe.Sql.Policy.{from_view_names}
use snowglobe.Sql.Views.{Stand, from_view_names-Stand}
use snowglobe.Config.Profiles.{load_snowflake_profile, load_snowglobe_profile}
use snowglobe.Config.Loading.{IsLoaded, load_snowglobe_profile-IsLoaded}
use snowglobe.Config.Toml.{table, Table, get_item}
use snowglobe.Config.Connection.{
  Asks, load_snowflake_profile-IsProfile, build_connector_arguments-Asks,
}
use snowglobe.Config.PrivateKey.{Cryptography}
use snowglobe.Config.Arguments.{build_connector_arguments}
use snowglobe.Startup.Runtime.{
  Files, Runtime, QueryExecutor, new_executor, create_snowflake_executor, optional_executor,
  create_runtime,
}

module _ (is_blank : String → Bool) (crypto : Cryptography) (files : Files) where
  -- An executor as the two files ask for it.
  pub record IsCreated (b : Broker) (connections_path snowglobe_config_path profile_name : String)
      (e : QueryExecutor) : Type 0 where
    pub views : List String
    pub loaded : IsLoaded is_blank (files.documents snowglobe_config_path) profile_name views
    pub stand : Stand views e.admit.policy.allowed_views
    pub capped : e.admit.policy.maximum_rows ≡ mvp_maximum_viewport_rows
    pub connections : Table
    pub parsed : files.documents connections_path ≡ ok connections
    pub profile : Table
    pub chosen : get_item profile_name connections ≡ ok (table profile)
    pub asked : Asks is_blank crypto files.keys profile e.admit.connector_arguments
    pub shared : e.executor.broker ≡ b
    pub idle : e.executor.tasks ≡ []
    pub open_for_queries : e.executor.closed ≡ false

  create_snowflake_executor-IsCreated :
      (b : Broker) (connections_path snowglobe_config_path profile_name : String)
      (e : QueryExecutor)
      → create_snowflake_executor is_blank crypto files b connections_path snowglobe_config_path
          profile_name
        ≡ ok e
      → IsCreated b connections_path snowglobe_config_path profile_name e
  unfolding create_snowflake_executor new_executor
  create_snowflake_executor-IsCreated b connections_path snowglobe_config_path profile_name e h =
      let (profile, p1, h1) =
        bind_returned
          (load_snowflake_profile is_blank (files.documents connections_path) profile_name) _ e h in
      let (views, p2, h2) =
        bind_returned
          (load_snowglobe_profile is_blank (files.documents snowglobe_config_path) profile_name) _ e
          h1 in
      let (policy, p3, h3) =
        bind_returned (from_view_names views (pos mvp_maximum_viewport_rows)) _ e h2 in
      let (arguments, p4, h4) =
        bind_returned (build_connector_arguments crypto files.keys profile) _ e h3 in
      let (connections, t, parsed, chosen, q) =
        load_snowflake_profile-IsProfile is_blank _ profile_name profile p1 in
      let same : new_executor b (record { policy = policy; connector_arguments = arguments }) ≡ e =
        cc in
      let (stand, full, rows, positive) =
        from_view_names-Stand views (pos mvp_maximum_viewport_rows) policy p3 in
      rw (← same) (record {
        views = views;
        loaded = load_snowglobe_profile-IsLoaded is_blank _ profile_name views p2;
        stand = stand;
        capped = cc rows;
        connections = connections;
        parsed = parsed;
        profile = t;
        chosen = chosen;
        asked = build_connector_arguments-Asks is_blank crypto files.keys t profile arguments q p4;
        shared = refl;
        idle = refl;
        open_for_queries = refl;
      })

  -- The budgets of the broker, and that it has no records.
  pub record HasBudgets (b : Broker) : Type 0 where
    pub empty : b.records ≡ []
    pub ttl : b.maximum_ttl ≡ mvp_maximum_ttl
    pub waiting : b.maximum_pending_requests ≡ some mvp_maximum_pending_requests
    pub requests : b.maximum_requests ≡ some mvp_maximum_requests

  pub init-HasBudgets :
      (b : Broker)
      → init
          (pos mvp_maximum_ttl)
          (some (pos mvp_maximum_pending_requests))
          (some (pos mvp_maximum_requests))
        ≡ ok b
      → HasBudgets b
  unfolding init require_positive
  init-HasBudgets b h = record {
    empty = ground arith;
    ttl = ground arith;
    waiting = ground arith;
    requests = ground arith;
  }

  pub record IsConfigured (connections_path snowglobe_config_path profile_name : String)
      (rt : Runtime) : Type 0 where
    pub budgets : HasBudgets rt.broker
    pub executor : QueryExecutor
    pub held : rt.executor ≡ some executor
    pub created : IsCreated rt.broker connections_path snowglobe_config_path profile_name executor

  -- A runtime that was created from two files has an empty broker with the budgets of the program, and an
  -- executor on that broker, open and without tasks. Its policy allows exactly the views that the policy
  -- file lists for the profile, and the maximum of rows of the program. Its arguments
  -- for the connector have each field of the profile's table in the connections file, none of them blank, the
  -- authenticator SNOWFLAKE_JWT, the private key that the named file gives, and the timeouts of the program.
  pub create_runtime-IsConfigured :
      (connections_path snowglobe_config_path profile_name : String) (rt : Runtime)
      → create_runtime is_blank crypto files
          (some connections_path)
          (some snowglobe_config_path)
          profile_name
        ≡ ok rt
      → IsConfigured connections_path snowglobe_config_path profile_name rt
  unfolding create_runtime optional_executor
  create_runtime-IsConfigured connections_path snowglobe_config_path profile_name rt h =
      let (b, p1, h1) =
        bind_returned
          (init (pos mvp_maximum_ttl) (some (pos mvp_maximum_pending_requests))
            (some (pos mvp_maximum_requests)))
          _ rt h in
      let (made, p2, h2) =
        bind_returned
          (optional_executor is_blank crypto files b (some connections_path)
            (some snowglobe_config_path) profile_name)
          _ rt h1 in
      let (e, p3, h3) =
        bind_returned
          (create_snowflake_executor is_blank crypto files b connections_path snowglobe_config_path
            profile_name)
          _ made p2 in
      let same : record { broker = b; executor = made } ≡ rt = cc in
      let one : some e ≡ made = cc in
      rw (← same) (record {
        budgets = init-HasBudgets b p1;
        executor = e;
        held = cc;
        created =
            create_snowflake_executor-IsCreated b connections_path snowglobe_config_path
              profile_name e p3;
      })
