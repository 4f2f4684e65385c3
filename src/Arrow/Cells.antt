-- ===== src/Arrow/Cells.antt =====
-- src/snowglobe/arrow_stream.py: the widest cell of a batch, from the columns' types and offsets.
use snowglobe.Prelude.{
  ℕ, zero, suc, ◌+◌, ◌-◌, ◌*◌, ◌/◌, ◌^◌, Option, none, some, List, [], ◌∷◌, ltb, length, take, drop,
  max, if◌then◌else◌,
}
use snowglobe.Exec.{Result, ok, err, arrow_admission_error, struct_error}
use snowglobe.Fallible.{◌>>=◌}
use snowglobe.Python.{ℤ, pos, negsuc}
use snowglobe.Arrow.Types.{DataType, Bytes, Column, cell_width, is_large}

unfoldable pub little_endian : Bytes → ℕ
little_endian [] = 0
little_endian (b ∷ bs) = b + 256 * little_endian bs

-- a pattern of `width` bytes as a signed number in two's complement
unfoldable pub signed : ℕ → ℕ → ℤ
signed width n = if ltb n (256 ^ width / 2) then pos n else negsuc (256 ^ width - 1 - n)

-- `struct.unpack_from("<i" or "<q", buffer, offset)[0]`
unfoldable pub unpack_from : ℕ → Bytes → ℕ → Result ℤ
unfolding little_endian signed
unpack_from width buffer offset =
    if ltb (length buffer) (offset + width)
    then err struct_error
    else ok (signed width (little_endian (take width (drop offset buffer))))

-- `end - start`, or nothing if `end < start`
unfoldable pub gap : ℤ → ℤ → Option ℕ
gap (pos s) (pos e) = if ltb e s then none else some (e - s)
gap (pos s) (negsuc e) = none
gap (negsuc s) (pos e) = some (e + s + 1)
gap (negsuc s) (negsuc e) = if ltb s e then none else some (s - e)

-- The size of the cell between two offsets.
unfoldable pub cell_bytes : ℕ → Bytes → ℕ → Result ℕ
cell_bytes width offsets index = do
  start ← unpack_from width offsets (index * width)
  end ← unpack_from width offsets ((index + 1) * width)
  elim (gap start end) [ none ↦ err arrow_admission_error | some n ↦ ok n ]

-- The loop of `_maximum_variable_cell_bytes`, on the number of cells that are left.
unfoldable pub widest_from : ℕ → Bytes → ℕ → ℕ → ℕ → Result ℕ
widest_from width offsets zero index maximum = ok maximum
widest_from width offsets (suc left) index maximum = elim (cell_bytes width offsets index) [
  | err e ↦ err e
  | ok n ↦ widest_from width offsets left (suc index) (max maximum n)
]

abbrev pub offset_width : DataType → ℕ
unfolding is_large
offset_width t = if is_large t then 8 else 4

-- `_maximum_variable_cell_bytes`
unfoldable pub maximum_variable_cell_bytes : Column → Result ℕ
maximum_variable_cell_bytes c = elim c.count [
  | zero ↦ ok 0
  | suc n ↦ elim c.offsets [
    | none ↦ err arrow_admission_error
    | some bytes ↦ widest_from (offset_width c.type) bytes (suc n) c.offset 0
  ]
]

-- the width of a column's widest cell
unfoldable pub column_width : Column → Result ℕ
column_width c = elim (cell_width c.type) [
  | err e ↦ err e
  | ok (some width) ↦ ok width
  | ok none ↦ maximum_variable_cell_bytes c
]

-- the loop of `_maximum_cell_bytes`
unfoldable pub widest_column : ℕ → List Column → Result ℕ
widest_column maximum [] = ok maximum
widest_column maximum (c ∷ cs) = elim (column_width c) [
  | err e ↦ err e
  | ok width ↦ widest_column (max maximum width) cs
]

-- `_maximum_cell_bytes`
unfoldable pub maximum_cell_bytes : List Column → Result ℕ
unfolding widest_column
maximum_cell_bytes columns = widest_column 0 columns
