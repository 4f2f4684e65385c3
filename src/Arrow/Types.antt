-- ===== src/Arrow/Types.antt =====
-- src/snowglobe/arrow_stream.py: the limits, and what the code reads of pyarrow's types and columns.
use snowglobe.Prelude.{ℕ, Bool, Option, some, none, List, ◌+◌, ◌/◌, min, max}
use snowglobe.Exec.{Result, ok, err, arrow_admission_error}
use snowglobe.Python.{ℤ, pos, negsuc, require_positive}

-- The type of a column, by the test of `pa.types` that it passes, with its `bit_width` or
-- `byte_width` where the code reads it.
pub data DataType : Type 0 where
  null boolean binary large_binary string large_string : DataType
  fixed_size_binary : ℕ → DataType
  integer floating decimal date time timestamp duration : ℕ → DataType
  other_type : DataType

-- `_cell_width`: the width in bytes, or nothing where it varies from cell to cell.
unfoldable pub cell_width : DataType → Result (Option ℕ)
cell_width null = ok (some 0)
cell_width boolean = ok (some 1)
cell_width binary = ok none
cell_width large_binary = ok none
cell_width string = ok none
cell_width large_string = ok none
cell_width (fixed_size_binary byte_width) = ok (some byte_width)
cell_width (integer bit_width) = ok (some ((bit_width + 7) / 8))
cell_width (floating bit_width) = ok (some ((bit_width + 7) / 8))
cell_width (decimal bit_width) = ok (some ((bit_width + 7) / 8))
cell_width (date bit_width) = ok (some ((bit_width + 7) / 8))
cell_width (time bit_width) = ok (some ((bit_width + 7) / 8))
cell_width (timestamp bit_width) = ok (some ((bit_width + 7) / 8))
cell_width (duration bit_width) = ok (some ((bit_width + 7) / 8))
cell_width other_type = err arrow_admission_error

-- `pa.types.is_large_binary(t) or pa.types.is_large_string(t)`
unfoldable pub is_large : DataType → Bool
is_large large_binary = Bool.true
is_large large_string = Bool.true
is_large _ = Bool.false

abbrev pub Bytes : Type 0
Bytes = List ℕ

-- A `pa.Array`: `type`, `len`, `offset`, and the second of its buffers.
pub record Column : Type 0 where
  pub type : DataType
  pub count : ℕ
  pub offset : ℕ
  pub offsets : Option Bytes

-- A `pa.RecordBatch`
pub record RecordBatch (Schema : Type 0) : Type 0 where
  pub schema : Schema
  pub num_rows : ℕ
  pub nbytes : ℕ
  pub columns : List Column

pub record ArrowAdmissionLimits : Type 0 where
  pub maximum_rows : ℕ
  pub maximum_columns : ℕ
  pub maximum_cell_bytes : ℕ
  pub maximum_arrow_bytes : ℕ
  pub maximum_decoded_bytes : ℕ

-- `min` of two integers, and an integer that is known to be positive
unfoldable pub min_ℤ : ℤ → ℤ → ℤ
min_ℤ (pos a) (pos b) = pos (min a b)
min_ℤ (pos a) (negsuc b) = negsuc b
min_ℤ (negsuc a) (pos b) = negsuc a
min_ℤ (negsuc a) (negsuc b) = negsuc (max a b)

unfoldable pub to_ℕ : ℤ → ℕ
to_ℕ (pos n) = n
to_ℕ (negsuc n) = 0

-- `ArrowAdmissionLimits(…)` with its `__post_init__`
unfoldable pub new_limits : ℤ → ℤ → ℤ → ℤ → ℤ → Result ArrowAdmissionLimits
unfolding min_ℤ to_ℕ require_positive
new_limits rows columns cell_bytes arrow_bytes decoded_bytes =
    elim (require_positive
      (min_ℤ rows (min_ℤ columns (min_ℤ cell_bytes (min_ℤ arrow_bytes decoded_bytes))))) [
        | err e ↦ err e
        | ok _ ↦ ok (record {
          maximum_rows = to_ℕ rows;
          maximum_columns = to_ℕ columns;
          maximum_cell_bytes = to_ℕ cell_bytes;
          maximum_arrow_bytes = to_ℕ arrow_bytes;
          maximum_decoded_bytes = to_ℕ decoded_bytes;
        })
      ]
