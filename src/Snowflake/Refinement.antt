-- ===== src/Snowflake/Refinement.antt =====
-- `_execute` as a whole refines the protocol of `Session`.
use snowglobe.Prelude.{
  ℕ, String, ◌≡◌, ◌⊎◌, refl, Bool, true, false, some, List, [], ◌∷◌, ◌++◌, inl, inr,
}
use snowglobe.Exec.{Result, ok, err, modify, finally, after_cleanup, ◌>>=◌}
use snowglobe.Arrow.Library.{PyArrow}
use snowglobe.Arrow.Admission.{InMemorySource}
use snowglobe.Broker.State.{Environment}
use snowglobe.Broker.History.{Call}
use snowglobe.Config.Arguments.{ConnectorArguments}
use snowglobe.Snowflake.Connector.{
  Connector, ConnectionRef, World, Event, note, logs_suppressed, connected, opened,
  connection_closed,
}
use snowglobe.Snowflake.Cursor.{
  suppress_connector_logs, connect, open_cursor, close_connection, with_cursor, with_connection,
  request_cursor,
}
use snowglobe.Snowflake.Execute.{use_cursor, execute_locked, execute}
use snowglobe.Snowflake.Session.{
  Session, silent, idle, connection, cursor, drained, closed, follow, follow_all, after_open,
  after_connect, follow-opened, follow-drained_closed, follow-connection_closed,
}
use snowglobe.Snowflake.Triples.{
  Promise, Keeps, Keeps-bind, Keeps-weaken, Keeps-finally, Keeps-calling,
}
use snowglobe.Snowflake.Silence.{IsQuiet, execute-IsQuiet}
use snowglobe.Snowflake.Given.{IsGiven, execute-IsGiven}
use snowglobe.Snowflake.Ownership.{Drained, with_cursor-Keeps}

module _ (env : Environment) (pa : PyArrow) (k : Connector pa) (others : ℕ → List Call)
    (id sql : String) where
  -- The connection is still open; the cursor is not.
  abbrev Left : ConnectionRef → Promise env pa k others id sql (InMemorySource pa)
  Left c (ok source) s = s ≡ drained c true
  Left c (err e) s = ((ran : Bool) × (s ≡ drained c ran)) ⊎ (s ≡ connection c)

  abbrev Closed : Promise env pa k others id sql (InMemorySource pa)
  Closed (ok source) s = s ≡ closed true
  Closed (err e) s = (ran : Bool) × (s ≡ closed ran)

  Drained-Left :
      (c : ConnectionRef) (r : Result (InMemorySource pa)) (s : Session)
      → Drained env pa k others id sql c r s
      → Left c r s
  Drained-Left c (ok source) s h = h
  Drained-Left c (err e) s h = inl h

  open_cursor-Keeps :
      (c : ConnectionRef)
      → Keeps env pa k others id sql
          (open_cursor env pa k others c
            >>= with_cursor env pa k others (use_cursor env pa k others id sql))
          (connection c)
          (Left c)
  unfolding open_cursor
  open_cursor-Keeps c =
      Keeps-bind env pa k others id sql _ _ (connection c) (λ r s. s ≡ after_open c r) (Left c)
        (Keeps-calling env pa k others id sql (opened c) (k.open_cursor c) (connection c)
          (after_open c) (λ r s. s ≡ after_open c r) (follow-opened id sql c) (λ r. refl))
        (λ j s p. rw p (
          Keeps-weaken env pa k others id sql _ (cursor c j false)
            (Drained env pa k others id sql c) (Left c) (Drained-Left c)
            (with_cursor-Keeps env pa k others id sql c j)))
        (λ e s p. inr p)

  Closed-after_cleanup :
      (c : ConnectionRef) (s : Session) (r : Result (InMemorySource pa))
      → Left c r s
      → (ran : Bool) × (follow id sql s (connection_closed c) ≡ some (closed ran))
        × ((r' : Result (Unit {0})) → Closed (after_cleanup r r') (closed ran))
  unfolding after_cleanup
  Closed-after_cleanup c s (ok source) h = (
    true,
    rw h (follow-drained_closed id sql c true),
    λ r'. elim r' as (λ x. Closed (after_cleanup (ok source) x) (closed true)) [
      | ok _ ↦ refl
      | err e ↦ (true, refl)
    ],
  )
  Closed-after_cleanup c s (err e') (inl (ran, h)) = (
    ran,
    rw h (follow-drained_closed id sql c ran),
    λ r'. elim r' as (λ x. Closed (after_cleanup {A = InMemorySource pa} (err e') x) (closed ran)) [
      | ok _ ↦ (ran, refl)
      | err e ↦ (ran, refl)
    ],
  )
  Closed-after_cleanup c s (err e') (inr h) = (
    false,
    rw h (follow-connection_closed id sql c),
    λ r'.
        elim r' as (λ x. Closed (after_cleanup {A = InMemorySource pa} (err e') x) (closed false)) [
          | ok _ ↦ (false, refl)
          | err e ↦ (false, refl)
        ],
  )

  with_connection-Keeps :
      (c : ConnectionRef)
      → Keeps env pa k others id sql
          (with_connection env pa k others (use_cursor env pa k others id sql) c)
          (connection c)
          Closed
  unfolding with_connection close_connection
  with_connection-Keeps c =
      Keeps-finally env pa k others id sql _ _ (connection c) (Left c) Closed (open_cursor-Keeps c)
        (λ r s h.
          let (ran, p, q) = Closed-after_cleanup c s r h in
          Keeps-calling env pa k others id sql (λ _. connection_closed c) (k.close_connection c) s
            (λ _. closed ran) (λ r' s'. Closed (after_cleanup r r') s') (λ r'. p) q)

  pub suppress_connector_logs-Keeps :
      Keeps env pa k others id sql
        (suppress_connector_logs env pa k others)
        idle
        (λ r s. (r ≡ ok tt) × (s ≡ silent))
  unfolding suppress_connector_logs note follow follow_all
  suppress_connector_logs-Keeps w = record {
    events = logs_suppressed ∷ [];
    appended = refl;
    same_lock = refl;
    session = silent;
    path = refl;
    post = (refl, refl);
  }

  request_cursor-Keeps :
      (arguments : ConnectorArguments)
      → Keeps env pa k others id sql
          (request_cursor env pa k others arguments (use_cursor env pa k others id sql))
          idle
          Closed
  unfolding request_cursor connect
  request_cursor-Keeps arguments =
      Keeps-bind env pa k others id sql _ _ idle (λ r s. (r ≡ ok tt) × (s ≡ silent)) Closed
        suppress_connector_logs-Keeps
        (λ _ s q. rw q.1 (
          Keeps-bind env pa k others id sql {A = ConnectionRef} _ _ silent
            (λ r s'. s' ≡ after_connect r) Closed
            (Keeps-calling env pa k others id sql connected (k.connect arguments) silent
              after_connect (λ r s'. s' ≡ after_connect r) (λ r. unfold follow in refl) (λ r. refl))
            (λ c s' p. rw p (with_connection-Keeps c)) (λ e s' p. (false, p))))
        (λ e s q. absurd (cc q.0))

  -- What `_execute` owes: its calls of the connector follow the protocol to its end, where everything
  -- that was opened is closed; the lock is free; and where a source is returned, the statement was
  -- executed and the source is the whole of what it gave, within the budgets.
  pub record Served (arguments : ConnectorArguments) (w : World k)
      (end : Result (InMemorySource pa) × World k) : Type 0 where
    pub events : List Event
    pub appended : end.1.events ≡ w.events ++ events
    pub silenced : IsQuiet end.1.logger
    pub unlocked : end.1.is_active ≡ false
    pub ran : Bool
    pub path : follow_all id sql idle events ≡ some (closed ran)
    pub complete :
        (source : InMemorySource pa)
        → end.0 ≡ ok source
        → (ran ≡ true) × IsGiven env pa k others id sql arguments w.driver source

  Closed-ran :
      (r : Result (InMemorySource pa)) (s : Session)
      → Closed r s
      → (ran : Bool) × (s ≡ closed ran)
        × ((source : InMemorySource pa) → r ≡ ok source → ran ≡ true)
  Closed-ran (ok source') s h = (true, h, λ source e. refl)
  Closed-ran (err e) s h = (h.0, h.1, λ source q. absurd (cc q))

  -- From a world where the lock is free, `_execute` keeps to the protocol of a request: whatever the
  -- connector returns or raises at each call, and whatever others do to the broker meanwhile, the logs
  -- are suppressed before the connection is made, and the logger of the connector writes nothing in the end; the
  -- cursor and the connection that were opened are closed, once and in this order; no SQL but the governed SQL is
  -- executed, at most once and under the statement timeout; and the lock is free again. A source that is returned
  -- holds the batches of all the tables that the connector gives for the statement, on the connection and the cursor that
  -- it gave for the arguments, in order and within the budgets; or, where it gives no table, those of the table without
  -- rows of its result batches.
  pub execute-Served :
      (arguments : ConnectorArguments) (w : World k)
      → w.is_active ≡ false
      → Served arguments w (execute env pa k others arguments id sql w)
  unfolding execute execute_locked finally modify after_cleanup
  execute-Served arguments w free =
      let locked : World k = record w { is_active = true } in
      let r = request_cursor-Keeps arguments locked in
      let (ran, p, q) = Closed-ran _ r.session r.post in
      rw (free, execute)
        (record {
          events = r.events;
          appended = r.appended;
          silenced =
              rw (free, execute) at (execute-IsQuiet env pa k others arguments id sql w free);
          unlocked = refl;
          ran = ran;
          path = rw (← p) r.path;
          complete = λ source e. (
            q source e,
            execute-IsGiven env pa k others id sql arguments w source free (rw (free, execute) e),
          );
        })
