-- ===== src/Startup/Agreement.antt =====
-- The preflight against the start of the service.
use snowglobe.Prelude.{ℕ, String, ◌≡◌, refl, Bool, false, some, List, inl, inr, arith}
use snowglobe.Exec.{Result, ok, err, Result-cases, lift, ◌>>=◌}
use snowglobe.Python.{pos, require_positive}
use snowglobe.Arrow.Library.{PyArrow}
use snowglobe.Broker.State.{Environment, init}
use snowglobe.Broker.History.{Call}
use snowglobe.Limits.{mvp_maximum_viewport_rows}
use snowglobe.Sql.Policy.{from_view_names}
use snowglobe.Config.Profiles.{load_snowflake_profile, load_snowglobe_profile}
use snowglobe.Config.PrivateKey.{Cryptography}
use snowglobe.Config.Arguments.{build_connector_arguments}
use snowglobe.Snowflake.Connector.{Connector, World}
use snowglobe.Startup.Runtime.{Files, create_runtime, optional_executor, create_snowflake_executor}
use snowglobe.Startup.Console.{Console, print, progress}
use snowglobe.Startup.Preflight.{run_preflight, check_connection}

-- Whether something returned, without what.
abbrev pub finished {ℓ} : {A : Type ℓ} → Result A → Result (Unit {0})
finished (ok a) = ok tt
finished (err e) = err e

module _ (env : Environment) (pa : PyArrow) (k : Connector pa) (others : ℕ → List Call)
    (is_blank : String → Bool) (crypto : Cryptography) (files : Files)
    (connections_path snowglobe_config_path profile_name : String) where
  -- Without the check of the connection, the preflight returns or raises as the creation of the runtime
  -- from the same files does, and does nothing but print.
  pub run_preflight-eq-create_runtime :
      (has_progress : Bool) (c : Console (World k))
      → ((run_preflight env pa k others is_blank crypto files connections_path snowglobe_config_path
            profile_name false has_progress c).0
          ≡ finished (
              create_runtime is_blank crypto files
                (some connections_path)
                (some snowglobe_config_path)
                profile_name))
        × ((run_preflight env pa k others is_blank crypto files connections_path
              snowglobe_config_path profile_name false has_progress c).1.state
            ≡ c.state)
  unfolding run_preflight check_connection progress print create_runtime optional_executor
      create_snowflake_executor ◌>>=◌ lift init require_positive
  run_preflight-eq-create_runtime has_progress c =
      elim (Result-cases
        (load_snowflake_profile is_blank (files.documents connections_path) profile_name)) [
          | inr (e, p) ↦
              rw (p, run_preflight, create_runtime, optional_executor, create_snowflake_executor)
                (refl, ground arith)
          | inl (connection, p) ↦
              elim (Result-cases (
                load_snowglobe_profile is_blank (files.documents snowglobe_config_path)
                  profile_name)) [
                    | inr (e, q) ↦
                        rw
                          (
                            p, q, run_preflight, create_runtime, optional_executor,
                            create_snowflake_executor,
                          )
                          (refl, ground arith)
                    | inl (views, q) ↦
                        elim (Result-cases
                          (from_view_names views (pos mvp_maximum_viewport_rows))) [
                            | inr (e, r) ↦
                                rw
                                  (
                                    p, q, r, run_preflight, create_runtime, optional_executor,
                                    create_snowflake_executor,
                                  )
                                  (refl, ground arith)
                            | inl (policy, r) ↦
                                elim (Result-cases
                                  (build_connector_arguments crypto files.keys connection)) [
                                    | inr (e, t) ↦
                                        rw
                                          (
                                            p, q, r, t, run_preflight, create_runtime,
                                            optional_executor, create_snowflake_executor,
                                          )
                                          (refl, ground arith)
                                    | inl (arguments, t) ↦
                                        rw
                                          (
                                            p, q, r, t, run_preflight, create_runtime,
                                            optional_executor, create_snowflake_executor,
                                            check_connection,
                                          )
                                          (refl, ground arith)
                                  ]
                          ]
                  ]
        ]
