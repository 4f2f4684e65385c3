-- ===== src/Startup/Harmless.antt =====
-- What the preflight does to Snowflake.
use snowglobe.Prelude.{
  ℕ, String, ◌≡◌, ◌⊎◌, refl, Bool, true, false, some, List, [], ◌++◌, inl, inr, arith, Bool-cases,
}
use mathlib.Core.List.{append-nil}
use snowglobe.Exec.{Result, ok, err, is_exception, Result-cases, lift, ◌>>=◌}
use snowglobe.Arrow.Library.{PyArrow}
use snowglobe.Broker.Records.{CursorRef}
use snowglobe.Broker.State.{Environment}
use snowglobe.Broker.History.{Call}
use snowglobe.Python.{pos}
use snowglobe.Limits.{mvp_maximum_viewport_rows}
use snowglobe.Sql.Policy.{from_view_names}
use snowglobe.Config.Profiles.{load_snowflake_profile, load_snowglobe_profile}
use snowglobe.Config.Arguments.{ConnectorArguments, build_connector_arguments}
use snowglobe.Config.PrivateKey.{Cryptography}
use snowglobe.Snowflake.Connector.{
  Connector, ConnectionRef, World, Event, connected, opened, cursor_closed, connection_closed,
}
use snowglobe.Snowflake.Cursor.{
  connect, open_cursor, close_cursor, close_connection, with_cursor, with_connection,
  request_cursor,
}
use snowglobe.Snowflake.Session.{
  Session, silent, idle, connection, cursor, drained, closed, follow, follow_all, after_open,
  after_connect, follow-opened, follow-cursor_closed, follow-drained_closed,
  follow-connection_closed,
}
use snowglobe.Snowflake.Triples.{
  Promise, Keeps, Keeps-bind, Keeps-finally, Keeps-calling, Keeps-weaken,
}
use snowglobe.Snowflake.Refinement.{suppress_connector_logs-Keeps}
use snowglobe.Snowflake.Statements.{executions, follow_all-counts}
use snowglobe.Startup.Runtime.{Files}
use snowglobe.Startup.Console.{Console, print, progress, beneath}
use snowglobe.Startup.Preflight.{Arguments, pass, check_connection, run_preflight, exit_code, main}

module _ (env : Environment) (pa : PyArrow) (k : Connector pa) (others : ℕ → List Call)
    (id sql : String) where
  abbrev Ended : Session → Promise env pa k others id sql (Unit {0})
  Ended t r s = s ≡ t

  abbrev Left : ConnectionRef → Promise env pa k others id sql (Unit {0})
  Left c r s = (s ≡ drained c false) ⊎ (s ≡ connection c)

  pass-Keeps :
      (c : ConnectionRef) (j : CursorRef)
      → Keeps env pa k others id sql
          (with_cursor env pa k others (pass env pa k others) j)
          (cursor c j false)
          (Ended (drained c false))
  unfolding with_cursor close_cursor pass follow_all
  pass-Keeps c j =
      Keeps-finally env pa k others id sql _ _ (cursor c j false) (Ended (cursor c j false))
        (Ended (drained c false))
        (λ w. record {
          events = [];
          appended = rw append-nil refl;
          same_lock = refl;
          session = cursor c j false;
          path = refl;
          post = refl;
        })
        (λ r s h. rw h (
          Keeps-calling env pa k others id sql (λ _. cursor_closed j) (k.close_cursor j)
            (cursor c j false) (λ _. drained c false) (λ _ s'. s' ≡ drained c false)
            (λ _. follow-cursor_closed id sql c j false) (λ _. refl)))

  open_cursor-Left :
      (c : ConnectionRef)
      → Keeps env pa k others id sql
          (open_cursor env pa k others c >>= with_cursor env pa k others (pass env pa k others))
          (connection c)
          (Left c)
  unfolding open_cursor
  open_cursor-Left c =
      Keeps-bind env pa k others id sql _ _ (connection c) (λ r s. s ≡ after_open c r) (Left c)
        (Keeps-calling env pa k others id sql (opened c) (k.open_cursor c) (connection c)
          (after_open c) (λ r s. s ≡ after_open c r) (follow-opened id sql c) (λ r. refl))
        (λ j s p. rw p (
          Keeps-weaken env pa k others id sql _ (cursor c j false) (Ended (drained c false))
            (Left c) (λ r s' h. inl h) (pass-Keeps c j)))
        (λ e s p. inr p)

  Left-closes :
      (c : ConnectionRef) (r : Result (Unit {0})) (s : Session)
      → Left c r s
      → follow id sql s (connection_closed c) ≡ some (closed false)
  Left-closes c r s (inl h) = rw h (follow-drained_closed id sql c false)
  Left-closes c r s (inr h) = rw h (follow-connection_closed id sql c)

  pub request_cursor-closes :
      (arguments : ConnectorArguments)
      → Keeps env pa k others id sql
          (request_cursor env pa k others arguments (pass env pa k others))
          idle
          (Ended (closed false))
  unfolding request_cursor connect with_connection close_connection
  request_cursor-closes arguments =
      Keeps-bind env pa k others id sql _ _ idle (λ r s. (r ≡ ok tt) × (s ≡ silent))
        (Ended (closed false)) (suppress_connector_logs-Keeps env pa k others id sql)
        (λ _ s q. rw q.1 (
          Keeps-bind env pa k others id sql {A = ConnectionRef} _ _ silent
            (λ r s'. s' ≡ after_connect r) (Ended (closed false))
            (Keeps-calling env pa k others id sql connected (k.connect arguments) silent
              after_connect (λ r s'. s' ≡ after_connect r) (λ r. unfold follow in refl) (λ r. refl))
            (λ c s' p. rw p (
              Keeps-finally env pa k others id sql _ _ (connection c) (Left c)
                (Ended (closed false)) (open_cursor-Left c)
                (λ r s'' h.
                  Keeps-calling env pa k others id sql (λ _. connection_closed c)
                    (k.close_connection c) s'' (λ _. closed false) (λ _ t. t ≡ closed false)
                    (λ _. Left-closes c r s'' h) (λ _. refl))))
            (λ e s' p. p)))
        (λ e s q. absurd (cc q.0))

module _ (env : Environment) (pa : PyArrow) (k : Connector pa) (others : ℕ → List Call) where
  -- The calls of the connector that were made run through the protocol of a request without its statement,
  -- or there are none.
  pub record Rehearsed (w w' : World k) : Type 0 where
    pub events : List Event
    pub appended : w'.events ≡ w.events ++ events
    pub nothing_executed : executions events ≡ 0
    pub path : (events ≡ []) ⊎ (follow_all "" "" idle events ≡ some (closed false))
    pub same_lock : w'.is_active ≡ w.is_active

  Rehearsed-refl : (w w' : World k) → w' ≡ w → Rehearsed w w'
  Rehearsed-refl w w' same = rw same (record {
    events = [];
    appended = rw append-nil refl;
    nothing_executed = refl;
    path = inl refl;
    same_lock = refl;
  })

  request_cursor-Rehearsed :
      (arguments : ConnectorArguments) (w : World k)
      → Rehearsed w (request_cursor env pa k others arguments (pass env pa k others) w).1
  request_cursor-Rehearsed arguments w =
      let r = request_cursor-closes env pa k others "" "" arguments w in
      let p = rw r.post at r.path in
      let (counted, own) = follow_all-counts "" "" idle (closed false) r.events p in
      record {
        events = r.events;
        appended = r.appended;
        nothing_executed = omega arith;
        path = inr p;
        same_lock = r.same_lock;
      }

  check_connection-Rehearsed :
      (wanted : Bool) (arguments : ConnectorArguments) (c : Console (World k))
      → Rehearsed c.state (check_connection env pa k others wanted true arguments c).1.state
  unfolding check_connection progress print beneath ◌>>=◌
  check_connection-Rehearsed false arguments c = Rehearsed-refl c.state c.state refl
  check_connection-Rehearsed true arguments c =
      elim (Result-cases
        (request_cursor env pa k others arguments (pass env pa k others) c.state).0) [
          | inl (u, e) ↦
              rw (e, check_connection, beneath) (request_cursor-Rehearsed arguments c.state)
          | inr (x, e) ↦
              rw (e, check_connection, beneath) (request_cursor-Rehearsed arguments c.state)
        ]

  module _ (is_blank : String → Bool) (crypto : Cryptography) (files : Files) where
    run_preflight-Rehearsed :
        (connections_path snowglobe_config_path profile_name : String) (wanted : Bool)
        (c : Console (World k))
        → Rehearsed c.state
            (run_preflight env pa k others is_blank crypto files connections_path
              snowglobe_config_path profile_name wanted true c).1.state
    unfolding run_preflight progress print ◌>>=◌ lift
    run_preflight-Rehearsed connections_path snowglobe_config_path profile_name wanted c =
        elim (Result-cases
          (load_snowflake_profile is_blank (files.documents connections_path) profile_name)) [
            | inr (e, p) ↦ rw (p, run_preflight) (Rehearsed-refl c.state c.state refl)
            | inl (account, p) ↦
                elim (Result-cases (
                  load_snowglobe_profile is_blank (files.documents snowglobe_config_path)
                    profile_name)) [
                      | inr (e, q) ↦ rw (p, q, run_preflight) (Rehearsed-refl c.state c.state refl)
                      | inl (views, q) ↦
                          elim (Result-cases
                            (from_view_names views (pos mvp_maximum_viewport_rows))) [
                              | inr (e, r) ↦
                                  rw (p, q, r, run_preflight) (Rehearsed-refl c.state c.state refl)
                              | inl (policy, r) ↦
                                  elim (Result-cases
                                    (build_connector_arguments crypto files.keys account)) [
                                      | inr (e, t) ↦
                                          rw (p, q, r, t, run_preflight)
                                            (Rehearsed-refl c.state c.state refl)
                                      | inl (arguments, t) ↦
                                          rw (p, q, r, t, run_preflight)
                                            (check_connection-Rehearsed wanted arguments _)
                                    ]
                            ]
                    ]
          ]

    exit_code-Rehearsed :
        (w : World k) (r : Result (Unit {0})) (c : Console (World k))
        → Rehearsed w c.state
        → Rehearsed w (exit_code env pa k others is_blank crypto files r c).1.state
    unfolding exit_code print
    exit_code-Rehearsed w (ok _) c h = h
    exit_code-Rehearsed w (err e) c h = elim (Bool-cases (is_exception e)) [
      | inl p ↦ rw (p, exit_code) h
      | inr p ↦ rw (p, exit_code) h
    ]

    -- Whatever the command line and the files are, and whatever the connector returns or raises, the
    -- preflight executes no SQL; it makes no call of the connector, or those of one request without its
    -- statement, which close what they opened; and the lock of the admission is as it was.
    pub main-Rehearsed :
        (a : Arguments) (c : Console (World k))
        → Rehearsed c.state (main env pa k others is_blank crypto files a c).1.state
    unfolding main
    main-Rehearsed a c =
        exit_code-Rehearsed c.state _ _
          (run_preflight-Rehearsed a.connections a.snowglobe_config a.profile a.connect c)
