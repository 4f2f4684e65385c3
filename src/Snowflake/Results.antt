-- ===== src/Snowflake/Results.antt =====
-- What `_fetch_admitted_result` makes of the connector's tables.
use snowglobe.Prelude.{
  ◌≤◌, ◌≡◌, ◌∙◌, sym, ap, refl, true, List, [], ◌∷◌, ◌++◌, map, All, length, Bool-cases, inl, inr,
}
use mathlib.Core.List.{map-append}
use snowglobe.Exec.{Result, ok}
use snowglobe.Arrow.Types.{RecordBatch}
use snowglobe.Arrow.Library.{PyArrow, Item, batch, not_batch}
use snowglobe.Arrow.Admission.{InMemorySource}
use snowglobe.Arrow.Totals.{total_rows, total_bytes, IsAdmissible}
use snowglobe.Arrow.Admitted.{admit_record_batches-IsAdmitted}
use snowglobe.Limits.{mvp_arrow_limits, mvp_maximum_viewport_rows, mvp_maximum_viewport_bytes}
use snowglobe.Snowflake.Connector.{Table, TableItem, table, not_table, Tables}
use snowglobe.Snowflake.Fetch.{yield_from, record_batches, admit_tables}

module _ (pa : PyArrow) where
  open pa use {Schema, equals, field_types}

  abbrev pub all_batches : List (Table Schema) → List (RecordBatch Schema)
  all_batches [] = []
  all_batches (t ∷ ts) = t.batches ++ all_batches ts

  -- A source that holds the batches of all the tables of an iteration, in order, within the budgets of
  -- the program.
  pub record IsResult (first : TableItem Schema) (rest : Tables Schema) (source : InMemorySource pa)
      : Type 0 where
    pub head : Table Schema
    pub is_table : first ≡ table head
    pub schema : source.schema ≡ head.schema
    pub tables : List (Table Schema)
    pub listed : first ∷ rest.items ≡ map table tables
    pub ended_well : rest.ending ≡ ok tt
    pub same_schema : All (λ t. equals t.schema head.schema ≡ true) tables
    pub whole : source.batches ≡ all_batches tables
    pub few_columns : length (field_types head.schema) ≤ 32
    pub few_rows : total_rows pa source.batches ≤ mvp_maximum_viewport_rows
    pub few_bytes : total_bytes pa source.batches ≤ mvp_maximum_viewport_bytes
    pub admissible : All (IsAdmissible pa head.schema mvp_arrow_limits) source.batches

  abbrev read_batches : List (Item Schema) → List (RecordBatch Schema)
  read_batches [] = []
  read_batches (not_batch ∷ rest) = read_batches rest
  read_batches (batch b ∷ rest) = b ∷ read_batches rest

  read_batches-map : (bs : List (RecordBatch Schema)) → read_batches (map batch bs) ≡ bs
  read_batches-map [] = refl
  read_batches-map (b ∷ bs) = ap (◌∷◌ b) (read_batches-map bs)

  -- The tables of an iteration that came to its end.
  record Iterated (s : Schema) (items : List (TableItem Schema)) (ending : Result (Unit {0}))
      (given : List (Item Schema)) : Type 0 where
    ended_well : ending ≡ ok tt
    tables : List (Table Schema)
    listed : items ≡ map table tables
    same_schema : All (λ t. equals t.schema s ≡ true) tables
    batches : given ≡ map batch (all_batches tables)

  record_batches-Iterated :
      (s : Schema) (items : List (TableItem Schema)) (ending : Result (Unit {0}))
      → (record_batches pa s items ending).ending ≡ ok tt
      → Iterated s items ending (record_batches pa s items ending).items
  unfolding record_batches yield_from
  record_batches-Iterated s [] ending h = record {
    ended_well = h;
    tables = [];
    listed = refl;
    same_schema = tt;
    batches = refl;
  }
  record_batches-Iterated s (not_table ∷ rest) ending h = absurd (cc h)
  record_batches-Iterated s (table t ∷ rest) ending h = elim (Bool-cases (equals t.schema s)) [
    | inr e ↦ absurd (cc (rw (e, record_batches) at h))
    | inl e ↦
        let i = record_batches-Iterated s rest ending (rw (e, record_batches) at h) in
        record {
          ended_well = i.ended_well;
          tables = t ∷ i.tables;
          listed = ap (◌∷◌ (table t)) i.listed;
          same_schema = (e, i.same_schema);
          batches =
              rw (e, record_batches, i.batches, map-append batch t.batches (all_batches i.tables))
                refl;
        }
  ]

  pub admit_tables-IsResult :
      (first : TableItem Schema) (rest : Tables Schema) (source : InMemorySource pa)
      → admit_tables pa first rest ≡ ok source
      → IsResult first rest source
  unfolding admit_tables
  admit_tables-IsResult not_table rest source h = absurd (cc h)
  admit_tables-IsResult (table t) rest source h =
      let given = record_batches pa t.schema (table t ∷ rest.items) rest.ending in
      let a = admit_record_batches-IsAdmitted pa t.schema given mvp_arrow_limits source h in
      let i = record_batches-Iterated t.schema (table t ∷ rest.items) rest.ending a.ended_well in
      record {
        head = t;
        is_table = refl;
        schema = a.same_schema;
        tables = i.tables;
        listed = i.listed;
        ended_well = i.ended_well;
        same_schema = i.same_schema;
        whole =
            sym (read_batches-map source.batches)
            ∙ ap read_batches (sym a.all_given ∙ i.batches)
            ∙ read_batches-map (all_batches i.tables);
        few_columns = a.few_columns;
        few_rows = a.few_rows;
        few_bytes = a.few_decoded;
        admissible = a.admissible;
      }
