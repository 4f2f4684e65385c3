-- ===== src/Tests/Arrow.antt =====
-- The admission and the streaming over a small stand-in for pyarrow, whose writer writes one byte
-- per row.
use snowglobe.Prelude.{
  ℕ, zero, suc, ◌+◌, ◌≤◌, ◌≡◌, refl, Bool, true, false, some, List, [], ◌∷◌, arith, length, join,
}
use snowglobe.Exec.{ok, err, arrow_admission_error}
use snowglobe.Python.{require_positive}
use snowglobe.Arrow.Types.{
  Bytes, DataType, cell_width, is_large, Column, RecordBatch, ArrowAdmissionLimits, new_limits,
  min_ℤ, to_ℕ,
}
use snowglobe.Arrow.Cells.{
  maximum_cell_bytes, widest_column, column_width, maximum_variable_cell_bytes, widest_from,
  cell_bytes, little_endian, signed, unpack_from, gap,
}
use snowglobe.Arrow.Library.{PyArrow, batch, Items, write_chunk, write_chunks, drain}
use snowglobe.Arrow.Admission.{
  InMemorySource, check_types, validate_schema, new_state, admit, admit_all, admit_counted,
  count_batch, exceeds_totals, check_cells, write_and_drain, drain_within_limit, after_write,
  admit_and_finish, close_unfinished, close, finish, admit_record_batches,
}
use snowglobe.Arrow.Chunks.{yield_chunk, fail_closed, finish_stream, stream_from, ipc_chunks}
use snowglobe.Arrow.Admitted.{IsAdmitted, admit_record_batches-IsAdmitted}
use snowglobe.Arrow.Streaming.{opened, ipc_chunks-Within, ipc_chunks_admitted}

unfoldable pub program : Unit {0}
unfolding require_positive cell_width is_large new_limits min_ℤ to_ℕ maximum_cell_bytes
    widest_column column_width maximum_variable_cell_bytes widest_from cell_bytes little_endian
    signed unpack_from gap write_chunk write_chunks drain check_types validate_schema new_state
    admit admit_all admit_counted count_batch exceeds_totals check_cells write_and_drain
    drain_within_limit after_write admit_and_finish close_unfinished close finish
    admit_record_batches yield_chunk fail_closed finish_stream stream_from ipc_chunks
program = tt

abbrev pub same_length : List DataType → List DataType → Bool
same_length [] [] = true
same_length (x ∷ xs) (y ∷ ys) = same_length xs ys
same_length _ _ = false

abbrev pub rows_of : ℕ → Bytes
rows_of zero = []
rows_of (suc n) = 7 ∷ rows_of n

abbrev pub row_writer : PyArrow
row_writer = record {
  Schema = List DataType;
  Writer = ℕ;
  field_types = λ s. s;
  equals = same_length;
  new_stream = λ s. record { result = ok tt; writer = 0; chunks = (1 ∷ []) ∷ [] };
  write_batch =
      λ w b. record { result = ok tt; writer = w + b.num_rows; chunks = rows_of b.num_rows ∷ [] };
  close_writer = λ w. record { result = ok tt; writer = w; chunks = (9 ∷ []) ∷ [] };
}

abbrev pub names : Column
names = record {
  type = DataType.string;
  count = 2;
  offset = 0;
  offsets = some (0 ∷ 0 ∷ 0 ∷ 0 ∷ 3 ∷ 0 ∷ 0 ∷ 0 ∷ 8 ∷ 0 ∷ 0 ∷ 0 ∷ []);
}

abbrev pub two_rows : RecordBatch (List DataType)
two_rows = record { schema = DataType.string ∷ []; num_rows = 2; nbytes = 20; columns = names ∷ [] }

abbrev given : Items (List DataType)
given = record { items = batch two_rows ∷ batch two_rows ∷ []; ending = ok tt }

abbrev limits_of : ℕ → ArrowAdmissionLimits
limits_of cell = record {
  maximum_rows = 4;
  maximum_columns = 1;
  maximum_cell_bytes = cell;
  maximum_arrow_bytes = 6;
  maximum_decoded_bytes = 40;
}

abbrev source : InMemorySource row_writer
source = record { schema = DataType.string ∷ []; batches = two_rows ∷ two_rows ∷ [] }

admitted : admit_record_batches row_writer (DataType.string ∷ []) given (limits_of 5) ≡ ok source
unfolding program
admitted = refl

-- a cell of five bytes is too wide
too_wide :
    admit_record_batches row_writer (DataType.string ∷ []) given (limits_of 4)
    ≡ err arrow_admission_error
unfolding program
too_wide = refl

admit_record_batches-IsAdmitted_example :
    IsAdmitted row_writer (DataType.string ∷ []) given (limits_of 5) source
admit_record_batches-IsAdmitted_example =
    admit_record_batches-IsAdmitted row_writer (DataType.string ∷ []) given (limits_of 5) source
      admitted

ipc_chunks_admitted_example :
    (ipc_chunks row_writer (DataType.string ∷ []) 6 (opened row_writer source)).ending ≡ ok tt
ipc_chunks_admitted_example =
    ipc_chunks_admitted row_writer (DataType.string ∷ []) given (limits_of 5) source admitted
      (omega arith)

ipc_chunks-Within_example :
    length (join (ipc_chunks row_writer (DataType.string ∷ []) 4 given).chunks) ≤ 4
ipc_chunks-Within_example = ipc_chunks-Within row_writer (DataType.string ∷ []) 4 given
