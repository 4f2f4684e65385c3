-- ===== src/Arrow/Admitted.antt =====
-- `admit_record_batches` as a whole, and the streaming of what it returned.
use snowglobe.Prelude.{◌≤◌, ◌≡◌, List, [], map, arith, All, length, inl, inr}
use snowglobe.Exec.{ok, Result-cases}
use snowglobe.Arrow.Types.{Bytes, RecordBatch, ArrowAdmissionLimits}
use snowglobe.Arrow.Library.{PyArrow, batch, Items, write_chunks, empty_sink}
use snowglobe.Arrow.Admission.{
  AdmissionState, InMemorySource, check_types, validate_schema, new_state, admit_all,
  admit_and_finish, close_unfinished, finish, admit_record_batches,
}
use snowglobe.Arrow.Totals.{
  AreSupported, check_types-AreSupported, total_rows, total_bytes, IsAdmissible, admit_all-Looped,
}

module _ (pa : PyArrow) where
  open pa use {Schema, equals, field_types, new_stream, write_batch, close_writer}

  -- How an admission came to return.
  pub record Finished (batches : Items Schema) (s : AdmissionState pa)
      (admitted : List (RecordBatch Schema)) : Type 0 where
    pub loop : (admit_all pa batches.items [] s).0 ≡ ok admitted
    pub ended_well : batches.ending ≡ ok tt
    pub last : Bytes
    pub finished : (finish pa (admit_all pa batches.items [] s).1).0 ≡ ok last

  admit_and_finish-Finished :
      (batches : Items Schema) (s : AdmissionState pa) (admitted : List (RecordBatch Schema))
      → (admit_and_finish pa batches s).0 ≡ ok admitted
      → Finished batches s admitted
  unfolding admit_and_finish
  admit_and_finish-Finished batches s admitted h =
      elim (Result-cases (admit_all pa batches.items [] s).0) [
        | inr (x, e) ↦ absurd (ground arith)
        | inl (a, e) ↦ elim (Result-cases batches.ending) [
          | inr (x, f) ↦ absurd (ground arith)
          | inl (u, f) ↦ elim (Result-cases (finish pa (admit_all pa batches.items [] s).1).0) [
            | inr (x, g) ↦ absurd (ground arith)
            | inl (c, g) ↦
                let same : a ≡ admitted = ground arith in
                record { loop = rw (← same) e; ended_well = f; last = c; finished = g }
          ]
        ]
      ]

  pub record Created (s : Schema) (limits : ArrowAdmissionLimits) (state : AdmissionState pa)
      : Type 0 where
    pub schema : state.schema ≡ s
    pub same_limits : state.limits ≡ limits
    pub valid : validate_schema pa s limits ≡ ok tt
    pub opened : (new_stream s).result ≡ ok tt
    pub sink : state.sink ≡ write_chunks empty_sink (new_stream s).chunks
    pub writer : state.writer ≡ (new_stream s).writer
    pub rows : state.rows ≡ 0
    pub decoded_bytes : state.decoded_bytes ≡ 0
    pub arrow_bytes : state.arrow_bytes ≡ 0

  new_state-Created :
      (s : Schema) (limits : ArrowAdmissionLimits) (state : AdmissionState pa)
      → new_state pa s limits ≡ ok state
      → Created s limits state
  unfolding new_state
  new_state-Created s limits state h = ground arith

  -- The promise of `admit_record_batches`.
  pub record IsAdmitted (s : Schema) (given : Items Schema) (limits : ArrowAdmissionLimits)
      (source : InMemorySource pa) : Type 0 where
    pub same_schema : source.schema ≡ s
    pub all_given : given.items ≡ map batch source.batches
    pub ended_well : given.ending ≡ ok tt
    pub few_columns : length (field_types s) ≤ limits.maximum_columns
    pub supported : AreSupported (field_types s)
    pub few_rows : total_rows pa source.batches ≤ limits.maximum_rows
    pub few_decoded : total_bytes pa source.batches ≤ limits.maximum_decoded_bytes
    pub admissible : All (IsAdmissible pa s limits) source.batches

  few_columns_of :
      (s : Schema) (limits : ArrowAdmissionLimits)
      → validate_schema pa s limits ≡ ok tt
      → (length (field_types s) ≤ limits.maximum_columns) × (check_types (field_types s) ≡ ok tt)
  unfolding validate_schema
  few_columns_of s limits h = ground arith

  -- How `admit_record_batches` came to return.
  pub record Returned (s : Schema) (given : Items Schema) (limits : ArrowAdmissionLimits)
      (source : InMemorySource pa) : Type 0 where
    pub state : AdmissionState pa
    pub created : Created s limits state
    pub finished : Finished given state source.batches
    pub schema : source.schema ≡ s

  pub admit_record_batches-Returned :
      (s : Schema) (given : Items Schema) (limits : ArrowAdmissionLimits)
      (source : InMemorySource pa)
      → admit_record_batches pa s given limits ≡ ok source
      → Returned s given limits source
  unfolding admit_record_batches close_unfinished
  admit_record_batches-Returned s given limits source h =
      elim (Result-cases (new_state pa s limits)) [
        | inr (x, e) ↦ absurd (ground arith)
        | inl (state, e) ↦ elim (Result-cases (admit_and_finish pa given state).0) [
          | inr (x, f) ↦ absurd (ground arith)
          | inl (bs, f) ↦
              let same : bs ≡ source.batches = ground arith in
              record {
                state = state;
                created = new_state-Created s limits state e;
                finished = admit_and_finish-Finished given state source.batches (rw (← same) f);
                schema = ground arith;
              }
        ]
      ]

  -- A result that is admitted is the whole of what was given, batches of one schema that has no more
  -- columns than allowed, all of types that can be measured; its rows and its bytes are within their
  -- limits in total, and every cell is within its own.
  pub admit_record_batches-IsAdmitted :
      (s : Schema) (given : Items Schema) (limits : ArrowAdmissionLimits)
      (source : InMemorySource pa)
      → admit_record_batches pa s given limits ≡ ok source
      → IsAdmitted s given limits source
  admit_record_batches-IsAdmitted s given limits source h =
      let r = admit_record_batches-Returned s given limits source h in
      let c = r.created in
      let l = admit_all-Looped pa given.items [] r.state source.batches r.finished.loop in
      let same : source.batches ≡ l.batches = l.returned in
      let (few, typed) = few_columns_of s limits c.valid in
      record {
        same_schema = r.schema;
        all_given = rw l.returned l.given;
        ended_well = r.finished.ended_well;
        few_columns = few;
        supported = check_types-AreSupported (field_types s) typed;
        few_rows = rw (same, ← c.same_limits) (omega (arith, c.rows, l.ran.rows, l.ran.few_rows));
        few_decoded =
            rw (same, ← c.same_limits)
              (omega (arith, c.decoded_bytes, l.ran.decoded_bytes, l.ran.few_decoded));
        admissible = rw (c.schema, c.same_limits, ← same) at l.ran.admissible;
      }
