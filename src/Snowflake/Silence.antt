-- ===== src/Snowflake/Silence.antt =====
-- The logger of the connector from the start of a request on.
use snowglobe.Prelude.{ℕ, ◌<◌, ◌≡◌, refl, String, true, false, List, [], ◌∷◌, arith, inl, inr}
use snowglobe.Exec.{
  Result, ok, err, Exec, Result-cases, lift, modify, finally, ◌>>=◌, suppress_unavailable,
}
use snowglobe.Arrow.Library.{PyArrow}
use snowglobe.Broker.Records.{CursorRef}
use snowglobe.Broker.State.{Broker, Environment}
use snowglobe.Broker.History.{Call}
use snowglobe.Config.Arguments.{ConnectorArguments}
use snowglobe.Snowflake.Connector.{
  Connector, World, Logger, null_handler, TableItem, Event, connected, opened, printed, executed,
  fetched, batches_read, cursor_closed, connection_closed, note, calling, on_broker,
}
use snowglobe.Snowflake.Cursor.{
  silence, suppress_connector_logs, connect, open_cursor, close_connection, close_cursor,
  with_cursor, with_connection, request_cursor,
}
use snowglobe.Broker.Methods.{register_cursor, release_cursor}
use snowglobe.Snowflake.Fetch.{
  admit_tables, empty_table, empty_result_table, first_table, fetch_admitted_result,
}
use snowglobe.Snowflake.Execute.{
  mark_started, release, run_sql, use_cursor, execute_locked, execute,
}

-- Nothing is written: the one handler drops what it is given, the level is above that of every message
-- (50 is the highest), and the handlers of the parents are not asked.
pub record IsQuiet (logger : Logger) : Type 0 where
  pub drops : logger.handlers ≡ null_handler ∷ []
  pub above : 50 < logger.level
  pub alone : logger.propagate ≡ false

pub silence-IsQuiet : (logger : Logger) → IsQuiet (silence logger)
unfolding silence
silence-IsQuiet logger = record { drops = refl; above = omega arith; alone = refl }

module _ (env : Environment) (pa : PyArrow) (k : Connector pa) (others : ℕ → List Call) where
  open pa use {Schema}

  -- What leaves a quiet logger quiet.
  record Keeps {ℓ} {A : Type ℓ} (m : Exec (World k) A) : Type ℓ where
    stays : (w : World k) → IsQuiet w.logger → IsQuiet (m w).1.logger

  Keeps-bind {ℓ κ} :
      {A : Type ℓ} {B : Type κ} (m : Exec (World k) A) (f : A → Exec (World k) B)
      → Keeps m
      → ((a : A) → Keeps (f a))
      → Keeps (m >>= f)
  unfolding ◌>>=◌
  Keeps-bind m f p q = record {
    stays = λ w h. elim (Result-cases (m w).0) [
      | inl (a, e) ↦ rw (e, ◌>>=◌) ((q a).stays (m w).1 (p.stays w h))
      | inr (x, e) ↦ rw (e, ◌>>=◌) (p.stays w h)
    ];
  }

  Keeps-finally {ℓ} :
      {A : Type ℓ} (m : Exec (World k) A) (cleanup : Exec (World k) (Unit {0}))
      → Keeps m
      → Keeps cleanup
      → Keeps (finally m cleanup)
  unfolding finally
  Keeps-finally m cleanup p q = record { stays = λ w h. q.stays (m w).1 (p.stays w h) }

  Keeps-calling {ℓ} :
      {A : Type ℓ} (event : Result A → Event) (call : Exec k.State A)
      → Keeps (calling env pa k others event call)
  unfolding calling note
  Keeps-calling event call = record { stays = λ w h. h }

  Keeps-on_broker {ℓ} : {A : Type ℓ} (call : Exec Broker A) → Keeps (on_broker env pa k others call)
  unfolding on_broker
  Keeps-on_broker call = record { stays = λ w h. h }

  Keeps-lift {ℓ} : {A : Type ℓ} (r : Result A) → Keeps (lift r)
  unfolding lift
  Keeps-lift r = record { stays = λ w h. h }

  Keeps-note : (e : Event) → Keeps (modify (note env pa k others e))
  unfolding modify note
  Keeps-note e = record { stays = λ w h. h }

  first_table-Keeps :
      (j : CursorRef) (items : List (TableItem Schema)) (ending : Result (Unit {0}))
      → Keeps (first_table pa env k others j (record { items = items; ending = ending }))
  unfolding first_table empty_result_table
  first_table-Keeps j (t ∷ rest) ending = Keeps-lift _
  first_table-Keeps j [] (err e) = Keeps-lift _
  first_table-Keeps j [] (ok _) =
      Keeps-bind _ _
        (Keeps-bind _ _ (Keeps-calling (λ _. batches_read j) (k.get_result_batches j))
          (λ b. Keeps-lift (empty_table b)))
        (λ t. Keeps-lift _)

  fetch_admitted_result-Keeps : (j : CursorRef) → Keeps (fetch_admitted_result pa env k others j)
  unfolding fetch_admitted_result
  fetch_admitted_result-Keeps j =
      Keeps-bind _ _ (Keeps-calling (λ _. fetched j) (k.fetch_arrow_batches j)) (λ tables.
        Keeps-bind _ _ (first_table-Keeps j tables.items tables.ending)
          (λ t. Keeps-lift (admit_tables pa t.0 t.1)))

  run_sql-Keeps : (id sql : String) (j : CursorRef) → Keeps (run_sql env pa k others id sql j)
  unfolding run_sql
  run_sql-Keeps id sql j = Keeps-bind _ _ (Keeps-note (printed id sql)) (λ u.
      Keeps-bind _ _ (Keeps-calling (λ _. executed j sql 60) (k.execute j sql 60))
        (λ v. fetch_admitted_result-Keeps j))

  use_cursor-Keeps : (id sql : String) (j : CursorRef) → Keeps (use_cursor env pa k others id sql j)
  unfolding use_cursor mark_started release
  use_cursor-Keeps id sql j = Keeps-bind _ _ (Keeps-on_broker (register_cursor env id j)) (λ v.
      Keeps-finally _ _ (run_sql-Keeps id sql j)
        (Keeps-on_broker (suppress_unavailable (release_cursor env id j))))

  connect-Keeps :
      (arguments : ConnectorArguments) (id sql : String)
      → Keeps (
          connect env pa k others arguments
          >>= with_connection env pa k others (use_cursor env pa k others id sql))
  unfolding connect with_connection open_cursor with_cursor close_cursor close_connection
  connect-Keeps arguments id sql =
      Keeps-bind _ _ (Keeps-calling connected (k.connect arguments)) (λ c.
        Keeps-finally _ _
          (Keeps-bind _ _ (Keeps-calling (opened c) (k.open_cursor c)) (λ j.
            Keeps-finally _ _ (use_cursor-Keeps id sql j)
              (Keeps-calling (λ _. cursor_closed j) (k.close_cursor j))))
          (Keeps-calling (λ _. connection_closed c) (k.close_connection c)))

  pub execute-IsQuiet :
      (arguments : ConnectorArguments) (id sql : String) (w : World k)
      → w.is_active ≡ false
      → IsQuiet (execute env pa k others arguments id sql w).1.logger
  unfolding execute execute_locked request_cursor suppress_connector_logs finally modify note ◌>>=◌
  execute-IsQuiet arguments id sql w free =
      let locked : World k = record w { is_active = true } in
      rw (free, execute)
        ((connect-Keeps arguments id sql).stays (suppress_connector_logs env pa k others locked).1
          (silence-IsQuiet w.logger))
