-- ===== src/Arrow/Admission.antt =====
-- src/snowglobe/arrow_stream.py: `_AdmissionState` and `admit_record_batches`.
use snowglobe.Prelude.{
  ℕ, ◌+◌, Bool, true, false, not, List, [], ◌∷◌, ◌++◌, ◌||◌, ltb, length, if◌then◌else◌,
}
use snowglobe.Exec.{Result, ok, err, Exec, pure, lift, ◌>>=◌, ◌>>◌, arrow_admission_error}
use snowglobe.Arrow.Types.{Bytes, RecordBatch, ArrowAdmissionLimits, DataType, cell_width}
use snowglobe.Arrow.Cells.{maximum_cell_bytes}
use snowglobe.Arrow.Library.{
  PyArrow, Written, Item, batch, not_batch, Items, ChunkSink, empty_sink, write_chunks, drain,
}

pub record AdmissionState (pa : PyArrow) : Type 0 where
  pub schema : pa.Schema
  pub limits : ArrowAdmissionLimits
  pub sink : ChunkSink
  pub writer : pa.Writer
  pub rows : ℕ
  pub decoded_bytes : ℕ
  pub arrow_bytes : ℕ
  pub closed : Bool

-- `InMemoryArrowBatchSource`
pub record InMemorySource (pa : PyArrow) : Type 0 where
  pub schema : pa.Schema
  pub batches : List (RecordBatch pa.Schema)

-- the loop of `_validate_schema`
unfoldable pub check_types : List DataType → Result (Unit {0})
check_types [] = ok tt
check_types (t ∷ ts) = elim (cell_width t) [ err e ↦ err e | ok w ↦ check_types ts ]

module _ (pa : PyArrow) where
  open pa use {Schema, Writer, field_types, equals, new_stream, write_batch, close_writer}

  -- `_validate_schema`
  unfoldable pub validate_schema : Schema → ArrowAdmissionLimits → Result (Unit {0})
  validate_schema s limits =
      if ltb limits.maximum_columns (length (field_types s))
      then err arrow_admission_error
      else check_types (field_types s)

  -- what the writer did to the state: it moved on, and its chunks are in the sink
  unfoldable pub after_write : AdmissionState pa → Written (Unit {0}) Writer → AdmissionState pa
  after_write s w = record s { writer = w.writer; sink = write_chunks s.sink w.chunks }

  -- `_AdmissionState.__init__`
  unfoldable pub new_state : Schema → ArrowAdmissionLimits → Result (AdmissionState pa)
  new_state s limits = elim (validate_schema s limits) [
    | err e ↦ err e
    | ok _ ↦ elim (new_stream s).result [
      | err e ↦ err e
      | ok _ ↦ ok (record {
        schema = s;
        limits = limits;
        sink = write_chunks empty_sink (new_stream s).chunks;
        writer = (new_stream s).writer;
        rows = 0;
        decoded_bytes = 0;
        arrow_bytes = 0;
        closed = false;
      })
    ]
  ]

  -- `_drain_within_limit`
  unfoldable pub drain_within_limit : Exec (AdmissionState pa) Bytes
  unfolding drain
  drain_within_limit s =
      let (chunk, sink') = drain s.sink in
      let s' : AdmissionState pa = record s {
        sink = sink';
        arrow_bytes = s.arrow_bytes + length chunk;
      } in
      (
        if ltb s.limits.maximum_arrow_bytes (s.arrow_bytes + length chunk)
            then err arrow_admission_error
            else ok chunk,
        s',
      )

  -- the counters that `admit` adds to before it tests them
  unfoldable pub count_batch : RecordBatch Schema → AdmissionState pa → AdmissionState pa
  count_batch b s = record s {
    rows = s.rows + b.num_rows;
    decoded_bytes = s.decoded_bytes + b.nbytes;
  }

  unfoldable pub exceeds_totals : AdmissionState pa → Bool
  exceeds_totals s =
      ltb s.limits.maximum_rows s.rows || ltb s.limits.maximum_decoded_bytes s.decoded_bytes

  -- `self._writer.write_batch(batch)`, then the drain
  unfoldable pub write_and_drain : RecordBatch Schema → Exec (AdmissionState pa) Bytes
  write_and_drain b s = elim (write_batch s.writer b).result [
    | err e ↦ (err e, after_write s (write_batch s.writer b))
    | ok _ ↦ drain_within_limit (after_write s (write_batch s.writer b))
  ]

  -- the tests of `admit` on the cells of a batch
  unfoldable pub check_cells : RecordBatch Schema → ArrowAdmissionLimits → Result (Unit {0})
  check_cells b limits = elim (maximum_cell_bytes b.columns) [
    | err e ↦ err e
    | ok widest ↦ if ltb limits.maximum_cell_bytes widest then err arrow_admission_error else ok tt
  ]

  -- `admit`, once the batch is known to be one of the schema
  unfoldable pub admit_counted : RecordBatch Schema → Exec (AdmissionState pa) Bytes
  admit_counted b s =
      if exceeds_totals s
      then (err arrow_admission_error, s)
      else elim (check_cells b s.limits) [ err e ↦ (err e, s) | ok _ ↦ write_and_drain b s ]

  -- `_AdmissionState.admit`
  unfoldable pub admit : Item Schema → Exec (AdmissionState pa) Bytes
  admit not_batch s = (err arrow_admission_error, s)
  admit (batch b) s =
      if s.closed || not (equals b.schema s.schema)
      then (err arrow_admission_error, s)
      else admit_counted b (count_batch b s)

  -- `_AdmissionState.finish`
  unfoldable pub finish : Exec (AdmissionState pa) Bytes
  finish s =
      let s' = after_write s (close_writer s.writer) in
      if s.closed then (err arrow_admission_error, s) else elim (close_writer s.writer).result [
        | err e ↦ (err e, s')
        | ok _ ↦ drain_within_limit (record s' { closed = true })
      ]

  -- `_AdmissionState.close`
  unfoldable pub close : Exec (AdmissionState pa) (Unit {0})
  close s =
      let s' : AdmissionState pa = record s { closed = true } in
      if s.closed
      then (ok tt, s)
      else ((close_writer s.writer).result, after_write s' (close_writer s.writer))

  -- the loop of `admit_record_batches` over the batches, and `admitted`
  unfoldable pub admit_all :
      List (Item Schema)
      → List (RecordBatch Schema)
      → Exec (AdmissionState pa) (List (RecordBatch Schema))
  admit_all [] admitted s = (ok admitted, s)
  admit_all (not_batch ∷ rest) admitted s = (err arrow_admission_error, s)
  admit_all (batch b ∷ rest) admitted s = elim (admit (batch b) s).0 [
    | err e ↦ (err e, (admit (batch b) s).1)
    | ok _ ↦ admit_all rest (admitted ++ b ∷ []) (admit (batch b) s).1
  ]

  -- what the `try` of `admit_record_batches` does
  unfoldable pub admit_and_finish :
      Items Schema → Exec (AdmissionState pa) (List (RecordBatch Schema))
  unfolding ◌>>=◌
  admit_and_finish batches = do
    admitted ← admit_all batches.items []
    lift batches.ending
    finish
    pure admitted

  -- The `finally`: what does not finish is closed; an exception of `close` takes the place of the
  -- first.
  unfoldable pub close_unfinished :
      Result (List (RecordBatch Schema)) × AdmissionState pa
      → Result (List (RecordBatch Schema)) × AdmissionState pa
  close_unfinished (ok bs, s) = (ok bs, s)
  close_unfinished (err e, s) = elim (close s).0 [
    | err e' ↦ (err e', (close s).1)
    | ok _ ↦ (err e, (close s).1)
  ]

  -- `admit_record_batches`: what it returns, with the last state of the admission if there was one.
  unfoldable pub admit_record_batches :
      Schema → Items Schema → ArrowAdmissionLimits → Result (InMemorySource pa)
  admit_record_batches s batches limits = elim (new_state s limits) [
    | err e ↦ err e
    | ok state ↦ elim (close_unfinished (admit_and_finish batches state)).0 [
      | err e ↦ err e
      | ok admitted ↦ ok (record { schema = s; batches = admitted })
    ]
  ]
