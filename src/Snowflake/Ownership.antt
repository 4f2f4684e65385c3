-- ===== src/Snowflake/Ownership.antt =====
-- `_execute` keeps to the protocol on every path.
use snowglobe.Prelude.{ℕ, String, ◌≡◌, refl, Bool, true, false, List, [], ◌∷◌, inl, inr}
use snowglobe.Exec.{Result, ok, err, Result-cases, after_cleanup, suppress_unavailable}
use snowglobe.Arrow.Library.{PyArrow}
use snowglobe.Arrow.Admission.{InMemorySource}
use snowglobe.Broker.Records.{CursorRef}
use snowglobe.Broker.State.{Environment}
use snowglobe.Broker.Methods.{register_cursor, release_cursor}
use snowglobe.Broker.History.{Call}
use snowglobe.Limits.{mvp_statement_timeout_seconds}
use snowglobe.Snowflake.Connector.{
  Connector, ConnectionRef, TableItem, Tables, printed, cursor_closed,
}
use snowglobe.Snowflake.Cursor.{close_cursor, with_cursor}
use snowglobe.Snowflake.Fetch.{
  admit_tables, empty_table, empty_result_table, first_table, fetch_admitted_result,
}
use snowglobe.Snowflake.Execute.{mark_started, release, run_sql, use_cursor}
use snowglobe.Snowflake.Session.{
  Session, cursor, drained, follow-printed, follow-executed, follow-fetched, follow-batches_read,
  follow-cursor_closed,
}
use snowglobe.Snowflake.Triples.{
  Promise, Keeps-then, Keeps, Keeps-finally, Keeps-calling, Keeps-note, Keeps-on_broker, Keeps-lift,
}

module _ (env : Environment) (pa : PyArrow) (k : Connector pa) (others : ℕ → List Call)
    (id sql : String) where
  open pa use {Schema}

  -- While the cursor is open.
  abbrev Open : ConnectionRef → CursorRef → Promise env pa k others id sql (InMemorySource pa)
  Open c j (ok source) s = s ≡ cursor c j true
  Open c j (err e) s = (ran : Bool) × (s ≡ cursor c j ran)

  abbrev Still : {A : Type 0} → Session → Promise env pa k others id sql A
  Still t r s = s ≡ t

  empty_result_table-Keeps :
      (c : ConnectionRef) (j : CursorRef)
      → Keeps env pa k others id sql
          (empty_result_table pa env k others j)
          (cursor c j true)
          (Still (cursor c j true))
  unfolding empty_result_table
  empty_result_table-Keeps c j =
      let s = cursor c j true in
      Keeps-then env pa k others id sql _ _ s s (Still s)
        (Keeps-calling env pa k others id sql _ _ s (λ _. s) (Still s)
          (λ r. follow-batches_read id sql c j) (λ r. refl))
        (λ a. Keeps-lift env pa k others id sql (empty_table a) s (Still s) refl) (λ e. refl)

  first_table-Keeps :
      (c : ConnectionRef) (j : CursorRef) (items : List (TableItem Schema))
      (ending : Result (Unit {0}))
      → Keeps env pa k others id sql
          (first_table pa env k others j (record { items = items; ending = ending }))
          (cursor c j true)
          (Still (cursor c j true))
  unfolding first_table
  first_table-Keeps c j (t ∷ rest) ending = Keeps-lift env pa k others id sql _ _ _ refl
  first_table-Keeps c j [] (err e) = Keeps-lift env pa k others id sql _ _ _ refl
  first_table-Keeps c j [] (ok _) =
      let s = cursor c j true in
      Keeps-then env pa k others id sql _ _ s s (Still s) (empty_result_table-Keeps c j)
        (λ a. Keeps-lift env pa k others id sql _ s (Still s) refl) (λ e. refl)

  admit_tables-Open :
      (c : ConnectionRef) (j : CursorRef) (first : TableItem Schema) (rest : Tables Schema)
      → Open c j (admit_tables pa first rest) (cursor c j true)
  admit_tables-Open c j first rest = elim (Result-cases (admit_tables pa first rest)) [
    | inr (e, p) ↦ rw p (true, refl)
    | inl (source, p) ↦ rw p refl
  ]

  fetch_admitted_result-Keeps :
      (c : ConnectionRef) (j : CursorRef)
      → Keeps env pa k others id sql
          (fetch_admitted_result pa env k others j)
          (cursor c j true)
          (Open c j)
  unfolding fetch_admitted_result
  fetch_admitted_result-Keeps c j =
      let s = cursor c j true in
      Keeps-then env pa k others id sql _ _ s s (Open c j)
        (Keeps-calling env pa k others id sql _ _ s (λ _. s) (Still s)
          (λ r. follow-fetched id sql c j) (λ r. refl))
        (λ tables.
          Keeps-then env pa k others id sql _ _ s s (Open c j)
            (first_table-Keeps c j tables.items tables.ending)
            (λ t. Keeps-lift env pa k others id sql _ s (Open c j) (admit_tables-Open c j t.0 t.1))
            (λ e. (true, refl)))
        (λ e. (true, refl))

  run_sql-Keeps :
      (c : ConnectionRef) (j : CursorRef)
      → Keeps env pa k others id sql
          (run_sql env pa k others id sql j)
          (cursor c j false)
          (Open c j)
  unfolding run_sql
  run_sql-Keeps c j =
      let s = cursor c j false in
      let t = cursor c j true in
      Keeps-then env pa k others id sql _ _ s s (Open c j)
        (Keeps-note env pa k others id sql (printed id sql) s s (Still s)
          (follow-printed id sql c j) refl)
        (λ _.
          Keeps-then env pa k others id sql {A = Unit {0}} _ _ s t (Open c j)
            (Keeps-calling env pa k others id sql _ (k.execute j sql mvp_statement_timeout_seconds)
              s (λ _. t) (Still t) (λ r. follow-executed id sql c j) (λ r. refl))
            (λ _. fetch_admitted_result-Keeps c j) (λ e. (true, refl)))
        (λ e. (false, refl))

  Open-after_cleanup :
      (c : ConnectionRef) (j : CursorRef) (s : Session) (r : Result (InMemorySource pa))
      (r' : Result (Unit {0}))
      → Open c j r s
      → Open c j (after_cleanup r r') s
  unfolding after_cleanup
  Open-after_cleanup c j s r (ok _) h = h
  Open-after_cleanup c j s (ok source) (err e) h = (true, h)
  Open-after_cleanup c j s (err e') (err e) h = h

  use_cursor-Keeps :
      (c : ConnectionRef) (j : CursorRef)
      → Keeps env pa k others id sql
          (use_cursor env pa k others id sql j)
          (cursor c j false)
          (Open c j)
  unfolding use_cursor mark_started release
  use_cursor-Keeps c j =
      let s = cursor c j false in
      Keeps-then env pa k others id sql _ _ s s (Open c j)
        (Keeps-on_broker env pa k others id sql (register_cursor env id j) s (Still s) (λ r. refl))
        (λ _.
          Keeps-finally env pa k others id sql _ _ s (Open c j) (Open c j) (run_sql-Keeps c j)
            (λ r s' h.
              Keeps-on_broker env pa k others id sql
                (suppress_unavailable (release_cursor env id j)) s'
                (λ r' s''. Open c j (after_cleanup r r') s'')
                (λ r'. Open-after_cleanup c j s' r r' h)))
        (λ e. (false, refl))

  -- The cursor is closed, whatever became of the body.
  abbrev pub Drained : ConnectionRef → Promise env pa k others id sql (InMemorySource pa)
  Drained c (ok source) s = s ≡ drained c true
  Drained c (err e) s = (ran : Bool) × (s ≡ drained c ran)

  Drained-after_cleanup :
      (c : ConnectionRef) (j : CursorRef) (s : Session) (r : Result (InMemorySource pa))
      → Open c j r s
      → (ran : Bool) × (s ≡ cursor c j ran)
        × ((r' : Result (Unit {0})) → Drained c (after_cleanup r r') (drained c ran))
  unfolding after_cleanup
  Drained-after_cleanup c j s (ok source) h = (
    true,
    h,
    λ r'. elim r' as (λ x. Drained c (after_cleanup (ok source) x) (drained c true)) [
      | ok _ ↦ refl
      | err e ↦ (true, refl)
    ],
  )
  Drained-after_cleanup c j s (err e') h = (
    h.0,
    h.1,
    λ r'.
        elim r'
          as (λ x. Drained c (after_cleanup {A = InMemorySource pa} (err e') x) (drained c h.0)) [
            | ok _ ↦ (h.0, refl)
            | err e ↦ (h.0, refl)
          ],
  )

  pub with_cursor-Keeps :
      (c : ConnectionRef) (j : CursorRef)
      → Keeps env pa k others id sql
          (with_cursor env pa k others (use_cursor env pa k others id sql) j)
          (cursor c j false)
          (Drained c)
  unfolding with_cursor close_cursor
  with_cursor-Keeps c j =
      Keeps-finally env pa k others id sql _ _ (cursor c j false) (Open c j) (Drained c)
        (use_cursor-Keeps c j)
        (λ r s h.
          let (ran, p, q) = Drained-after_cleanup c j s r h in
          rw p (
            Keeps-calling env pa k others id sql (λ _. cursor_closed j) (k.close_cursor j)
              (cursor c j ran) (λ _. drained c ran) (λ r' s'. Drained c (after_cleanup r r') s')
              (λ r'. follow-cursor_closed id sql c j ran) q))
