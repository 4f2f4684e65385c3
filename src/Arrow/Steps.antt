-- ===== src/Arrow/Steps.antt =====
-- What one successful `admit` has checked and written.
use snowglobe.Prelude.{◌+◌, ◌≤◌, ◌≡◌, true, arith, length}
use snowglobe.Exec.{ok}
use snowglobe.Arrow.Types.{Bytes, RecordBatch}
use snowglobe.Arrow.Library.{PyArrow, batch, write_chunks, drain}
use snowglobe.Arrow.Admission.{
  AdmissionState, admit, admit_counted, count_batch, exceeds_totals, check_cells, write_and_drain,
  after_write, drain_within_limit,
}

module _ (pa : PyArrow) where
  open pa use {Schema, equals, write_batch}

  pub record Admits (b : RecordBatch Schema) (s s' : AdmissionState pa) : Type 0 where
    pub same_schema : s'.schema ≡ s.schema
    pub same_limits : s'.limits ≡ s.limits
    pub fits_schema : equals b.schema s.schema ≡ true
    pub rows : s'.rows ≡ s.rows + b.num_rows
    pub decoded_bytes : s'.decoded_bytes ≡ s.decoded_bytes + b.nbytes
    pub few_rows : s'.rows ≤ s.limits.maximum_rows
    pub few_decoded : s'.decoded_bytes ≤ s.limits.maximum_decoded_bytes
    pub cells : check_cells pa b s.limits ≡ ok tt
    pub written : (write_batch s.writer b).result ≡ ok tt
    pub writer : s'.writer ≡ (write_batch s.writer b).writer
    pub sink : s'.sink ≡ (drain (write_chunks s.sink (write_batch s.writer b).chunks)).1
    pub arrow_bytes :
        s'.arrow_bytes
        ≡ s.arrow_bytes + length (drain (write_chunks s.sink (write_batch s.writer b).chunks)).0
    pub few_arrow : s'.arrow_bytes ≤ s.limits.maximum_arrow_bytes

  pub admit-Admits :
      (b : RecordBatch Schema) (s : AdmissionState pa) (c : Bytes)
      → (admit pa (batch b) s).0 ≡ ok c
      → Admits b s (admit pa (batch b) s).1
  unfolding admit admit_counted count_batch exceeds_totals write_and_drain drain_within_limit
      after_write
  admit-Admits b s c h = ground arith
