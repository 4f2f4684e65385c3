-- ===== src/Snowflake/Given.antt =====
-- What a source that `_execute` returns is, by what each call of the connector has given.
use snowglobe.Prelude.{
  ℕ, String, ◌≡◌, refl, true, false, some, none, List, [], ◌∷◌, All, arith, Option, Bool-cases, inl,
  inr,
}
use snowglobe.Exec.{
  Result, ok, err, lift, modify, finally, bind-inverse, finally-inverse, Result-cases, ◌>>=◌,
}
use snowglobe.Arrow.Library.{PyArrow}
use snowglobe.Arrow.Admission.{InMemorySource}
use snowglobe.Broker.Records.{CursorRef}
use snowglobe.Broker.State.{Environment}
use snowglobe.Broker.History.{Call}
use snowglobe.Config.Arguments.{ConnectorArguments}
use snowglobe.Snowflake.Connector.{
  Connector, ConnectionRef, World, TableItem, Table, table, not_table, Tables, ResultBatch, printed,
  executed, fetched, batches_read, note, calling, on_broker,
}
use snowglobe.Snowflake.Cursor.{
  suppress_connector_logs, connect, open_cursor, close_connection, close_cursor, with_cursor,
  with_connection, request_cursor,
}
use snowglobe.Snowflake.Fetch.{
  all_empty, require_empty_table, admit_tables, empty_table, empty_result_table, first_table,
  fetch_admitted_result,
}
use snowglobe.Snowflake.Execute.{
  mark_started, release, run_sql, use_cursor, execute_locked, execute,
}
use snowglobe.Snowflake.Results.{IsResult, admit_tables-IsResult}

-- The result batches of a statement without rows, and the table without rows that the first one holds.
pub record IsEmpty {S : Type 0} (given : Option (List (ResultBatch S))) (t : Table S) : Type 0 where
  pub first : ResultBatch S
  pub rest : List (ResultBatch S)
  pub listed : given ≡ some (first ∷ rest)
  pub no_rows : All (λ b. b.rowcount ≡ 0) (first ∷ rest)
  pub is_table : first.arrow ≡ ok (table t)
  pub no_table_rows : t.num_rows ≡ 0

all_empty-All :
    {S : Type 0} (bs : List (ResultBatch S)) → all_empty bs ≡ true → All (λ b. b.rowcount ≡ 0) bs
unfolding all_empty
all_empty-All [] h = tt
all_empty-All (b ∷ bs) h = (ground arith, all_empty-All bs (ground arith))

require_empty_table-ok :
    {S : Type 0} (i j : TableItem S)
    → require_empty_table i ≡ ok j
    → (t : Table S) × (i ≡ table t) × (j ≡ table t) × (t.num_rows ≡ 0)
unfolding require_empty_table
require_empty_table-ok not_table j h = absurd (cc h)
require_empty_table-ok (table t) j h = (t, refl, ground arith, ground arith)

empty_table-IsEmpty :
    {S : Type 0} (given : Option (List (ResultBatch S))) (j : TableItem S)
    → empty_table given ≡ ok j
    → (t : Table S) × (j ≡ table t) × IsEmpty given t
unfolding empty_table
empty_table-IsEmpty none j h = absurd (cc h)
empty_table-IsEmpty (some []) j h = absurd (cc h)
empty_table-IsEmpty (some (b ∷ bs)) j h = elim (Bool-cases (all_empty (b ∷ bs))) [
  | inr e ↦ absurd (cc (rw (e, empty_table) at h))
  | inl e ↦ elim (Result-cases b.arrow) [
    | inr (x, f) ↦ absurd (cc (rw (e, f, empty_table) at h))
    | inl (i, f) ↦
        let (t, is_table, same, no_rows) =
          require_empty_table-ok i j (rw (e, f, empty_table) at h) in
        (
          t,
          same,
          record {
            first = b;
            rest = bs;
            listed = refl;
            no_rows = all_empty-All (b ∷ bs) e;
            is_table = rw is_table at f;
            no_table_rows = no_rows;
          },
        )
  ]
]

module _ (env : Environment) (pa : PyArrow) (k : Connector pa) (others : ℕ → List Call)
    (id sql : String) where
  open pa use {Schema}

  -- The source holds all the tables that were fetched; where there are none, the table without rows that the
  -- result batches give.
  abbrev pub Holds : CursorRef → Tables Schema → k.State → InMemorySource pa → Type 0
  Holds j tables d source = elim tables.items [
    | t ∷ rest ↦ IsResult pa t (record tables { items = rest }) source
    | [] ↦
        (t : Table Schema) × (given : Option (List (ResultBatch Schema))) × ((k.get_result_batches j
            d).0
          ≡ ok given)
        × IsEmpty given t
        × IsResult pa (table t) (record tables { items = [] }) source
  ]

  pub record Fetched (j : CursorRef) (d : k.State) (source : InMemorySource pa) : Type 0 where
    pub tables : Tables Schema
    pub given : (k.fetch_arrow_batches j d).0 ≡ ok tables
    pub holds : Holds j tables (k.fetch_arrow_batches j d).1 source

  pub record Executed (j : CursorRef) (d : k.State) (source : InMemorySource pa) : Type 0 where
    pub returned : (k.execute j sql 60 d).0 ≡ ok tt
    pub result : Fetched j (k.execute j sql 60 d).1 source

  -- A connection, a cursor, the statement and its tables, each from the state that the call before has left.
  pub record IsGiven (arguments : ConnectorArguments) (d : k.State) (source : InMemorySource pa)
      : Type 0 where
    pub connection : ConnectionRef
    pub connected : (k.connect arguments d).0 ≡ ok connection
    pub cursor : CursorRef
    pub opened : (k.open_cursor connection (k.connect arguments d).1).0 ≡ ok cursor
    pub result : Executed cursor (k.open_cursor connection (k.connect arguments d).1).1 source

  first_table-Holds :
      (j : CursorRef) (items : List (TableItem Schema)) (ending : Result (Unit {0})) (v : World k)
      (source : InMemorySource pa) (first : TableItem Schema) (rest : Tables Schema)
      → (first_table pa env k others j (record { items = items; ending = ending }) v).0
        ≡ ok (first, rest)
      → admit_tables pa first rest ≡ ok source
      → Holds j (record { items = items; ending = ending }) v.driver source
  unfolding first_table empty_result_table calling note lift
  first_table-Holds j (t ∷ more) ending v source first rest h a =
      let same : first ≡ t = cc h in
      let same' : rest ≡ record { items = more; ending = ending } = cc h in
      admit_tables-IsResult pa t (record { items = more; ending = ending }) source
        (rw (same, same') at a)
  first_table-Holds j [] (err e) v source first rest h a = absurd (cc h)
  first_table-Holds j [] (ok _) v source first rest h a =
      let no_tables : Tables Schema = record { items = []; ending = ok tt } in
      let (t0, e0, h0) =
        bind-inverse (empty_result_table pa env k others j) v (λ i. lift (ok (i, no_tables)))
          (first, rest) h in
      let (given, e1, h1) =
        bind-inverse (calling env pa k others (λ _. batches_read j) (k.get_result_batches j)) v _ t0
          e0 in
      let (t, is_table, is_empty) = empty_table-IsEmpty given t0 h1 in
      let same : first ≡ t0 = cc h0 in
      let same' : rest ≡ no_tables = cc h0 in
      (
        t,
        given,
        e1,
        is_empty,
        admit_tables-IsResult pa (table t) no_tables source (rw (same, same', is_table) at a),
      )

  fetch_admitted_result-Fetched :
      (j : CursorRef) (v : World k) (source : InMemorySource pa)
      → (fetch_admitted_result pa env k others j v).0 ≡ ok source
      → Fetched j v.driver source
  unfolding fetch_admitted_result calling note lift
  fetch_admitted_result-Fetched j v source h =
      let (tables, e1, h1) =
        bind-inverse (calling env pa k others (λ _. fetched j) (k.fetch_arrow_batches j)) v _ source
          h in
      let ((first, rest), e2, h2) =
        bind-inverse (first_table pa env k others j tables) _ _ source h1 in
      record {
        tables = tables;
        given = e1;
        holds = first_table-Holds j tables.items tables.ending _ source first rest e2 h2;
      }

  run_sql-Executed :
      (j : CursorRef) (v : World k) (source : InMemorySource pa)
      → (run_sql env pa k others id sql j v).0 ≡ ok source
      → Executed j v.driver source
  unfolding run_sql calling note modify
  run_sql-Executed j v source h =
      let printing = modify (note env pa k others (printed id sql)) in
      let executing = calling env pa k others (λ _. executed j sql 60) (k.execute j sql 60) in
      let fetching = fetch_admitted_result pa env k others j in
      let (_, _, h1) = bind-inverse printing v (λ _. executing >>= λ _. fetching) source h in
      let (_, e2, h2) = bind-inverse executing (printing v).1 (λ _. fetching) source h1 in
      record {
        returned = e2;
        result = fetch_admitted_result-Fetched j (executing (printing v).1).1 source h2;
      }

  with_cursor-Executed :
      (j : CursorRef) (v : World k) (source : InMemorySource pa)
      → (with_cursor env pa k others (use_cursor env pa k others id sql) j v).0 ≡ ok source
      → Executed j v.driver source
  unfolding with_cursor use_cursor mark_started on_broker
  with_cursor-Executed j v source h =
      let closing = close_cursor env pa k others j in
      let marking = mark_started env pa k others id j in
      let running = run_sql env pa k others id sql j in
      let releasing = release env pa k others id j in
      let h1 = finally-inverse (use_cursor env pa k others id sql j) closing v source h in
      let (_, _, h2) = bind-inverse marking v (λ _. finally running releasing) source h1 in
      let h3 = finally-inverse running releasing (marking v).1 source h2 in
      run_sql-Executed j (marking v).1 source h3

  with_connection-Executed :
      (c : ConnectionRef) (v : World k) (source : InMemorySource pa)
      → (with_connection env pa k others (use_cursor env pa k others id sql) c v).0 ≡ ok source
      → (j : CursorRef) × ((k.open_cursor c v.driver).0 ≡ ok j)
        × Executed j (k.open_cursor c v.driver).1 source
  unfolding with_connection open_cursor calling note
  with_connection-Executed c v source h =
      let opening = open_cursor env pa k others c in
      let body = with_cursor env pa k others (use_cursor env pa k others id sql) in
      let h1 = finally-inverse (opening >>= body) (close_connection env pa k others c) v source h in
      let (j, e2, h2) = bind-inverse opening v body source h1 in
      (j, e2, with_cursor-Executed j (opening v).1 source h2)

  request_cursor-IsGiven :
      (arguments : ConnectorArguments) (v : World k) (source : InMemorySource pa)
      → (execute_locked env pa k others arguments id sql v).0 ≡ ok source
      → IsGiven arguments v.driver source
  unfolding execute_locked request_cursor suppress_connector_logs connect calling note
  request_cursor-IsGiven arguments v source h =
      let suppressing = suppress_connector_logs env pa k others in
      let connecting = connect env pa k others arguments in
      let body = with_connection env pa k others (use_cursor env pa k others id sql) in
      let (_, _, h1) = bind-inverse suppressing v (λ _. connecting >>= body) source h in
      let (c, e2, h2) = bind-inverse connecting (suppressing v).1 body source h1 in
      let (j, e3, ran) = with_connection-Executed c (connecting (suppressing v).1).1 source h2 in
      record { connection = c; connected = e2; cursor = j; opened = e3; result = ran }

  pub execute-IsGiven :
      (arguments : ConnectorArguments) (w : World k) (source : InMemorySource pa)
      → w.is_active ≡ false
      → (execute env pa k others arguments id sql w).0 ≡ ok source
      → IsGiven arguments w.driver source
  unfolding execute
  execute-IsGiven arguments w source free h =
      let locked : World k = record w { is_active = true } in
      request_cursor-IsGiven arguments locked source (
        finally-inverse (execute_locked env pa k others arguments id sql)
          (modify (λ w'. record w' { is_active = false })) locked source (rw (free, execute) at h))
