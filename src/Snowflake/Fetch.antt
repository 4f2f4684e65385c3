-- ===== src/Snowflake/Fetch.antt =====
-- src/snowglobe/snowflake_executor.py: `_fetch_admitted_result`, `_record_batches` and
-- `_empty_result_table`.
use snowglobe.Prelude.{
  ℕ, Bool, true, Option, none, some, List, [], ◌∷◌, ◌++◌, ◌&&◌, ◌==◌, map, if◌then◌else◌,
}
use snowglobe.Exec.{Result, ok, err, Exec, lift, ◌>>=◌, arrow_admission_error}
use snowglobe.Arrow.Types.{RecordBatch}
use snowglobe.Arrow.Library.{PyArrow, batch, Items}
use snowglobe.Arrow.Admission.{InMemorySource, admit_record_batches}
use snowglobe.Broker.Records.{CursorRef}
use snowglobe.Broker.State.{Environment}
use snowglobe.Broker.History.{Call}
use snowglobe.Limits.{mvp_arrow_limits}
use snowglobe.Snowflake.Connector.{
  Connector, World, TableItem, table, not_table, Tables, ResultBatch, calling, fetched,
  batches_read,
}

-- `any(batch.rowcount != 0 for batch in result_batches)`, negated
unfoldable pub all_empty : {S : Type 0} → List (ResultBatch S) → Bool
all_empty [] = true
all_empty (b ∷ bs) = (b.rowcount == 0) && all_empty bs

-- the test of the recovered table
unfoldable pub require_empty_table : {S : Type 0} → TableItem S → Result (TableItem S)
require_empty_table not_table = err arrow_admission_error
require_empty_table (table t) = if t.num_rows == 0 then ok (table t) else err arrow_admission_error

-- `_empty_result_table`, once the result batches are there
unfoldable pub empty_table : {S : Type 0} → Option (List (ResultBatch S)) → Result (TableItem S)
empty_table none = err arrow_admission_error
empty_table (some []) = err arrow_admission_error
empty_table (some (b ∷ bs)) =
    if all_empty (b ∷ bs)
    then (elim b.arrow [ err e ↦ err e | ok t ↦ require_empty_table t ])
    else err arrow_admission_error

module _ (pa : PyArrow) where
  open pa use {Schema, equals}

  -- batches before those that follow
  unfoldable pub yield_from : List (RecordBatch Schema) → Items Schema → Items Schema
  yield_from bs rest = record rest { items = map batch bs ++ rest.items }

  -- `_record_batches`
  unfoldable pub record_batches :
      Schema → List (TableItem Schema) → Result (Unit {0}) → Items Schema
  record_batches s [] ending = record { items = []; ending = ending }
  record_batches s (not_table ∷ rest) ending = record {
    items = [];
    ending = err arrow_admission_error;
  }
  record_batches s (table t ∷ rest) ending =
      let more = record_batches s rest ending in
      if equals t.schema s
      then yield_from t.batches more
      else record { items = []; ending = err arrow_admission_error }

  -- the last lines of `_fetch_admitted_result`
  unfoldable pub admit_tables : TableItem Schema → Tables Schema → Result (InMemorySource pa)
  admit_tables not_table rest = err arrow_admission_error
  admit_tables (table t) rest =
      admit_record_batches pa t.schema (record_batches t.schema (table t ∷ rest.items) rest.ending)
        mvp_arrow_limits

  module _ (env : Environment) (k : Connector pa) (others : ℕ → List Call) where
    unfoldable pub empty_result_table : CursorRef → Exec (World k) (TableItem Schema)
    unfolding ◌>>=◌
    empty_result_table cursor = do
      result_batches ←
          calling env pa k others (λ _. batches_read cursor) (k.get_result_batches cursor)
      lift (empty_table result_batches)

    -- `next(tables, None)`, and the empty table where there is none
    unfoldable pub first_table :
        CursorRef → Tables Schema → Exec (World k) (TableItem Schema × Tables Schema)
    unfolding ◌>>=◌
    first_table cursor tables = elim tables.items [
      | t ∷ rest ↦ lift (ok (t, record tables { items = rest }))
      | [] ↦ elim tables.ending [
        | err e ↦ lift (err e)
        | ok _ ↦ (do t ← empty_result_table cursor; lift (ok (t, tables)))
      ]
    ]

    -- `_fetch_admitted_result`
    unfoldable pub fetch_admitted_result : CursorRef → Exec (World k) (InMemorySource pa)
    unfolding ◌>>=◌
    fetch_admitted_result cursor = do
      tables ← calling env pa k others (λ _. fetched cursor) (k.fetch_arrow_batches cursor)
      (first, rest) ← first_table cursor tables
      lift (admit_tables first rest)
