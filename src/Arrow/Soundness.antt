-- ===== src/Arrow/Soundness.antt =====
-- What an admitted result satisfies.
use snowglobe.Prelude.{
  ℕ, zero, suc, ◌+◌, ◌≤◌, ◌<◌, ◌≡◌, refl, none, some, List, [], ◌∷◌, arith, All, inl, inr, max,
  Option-cases,
}
use snowglobe.Exec.{ok, Result-cases}
use snowglobe.Arrow.Types.{Bytes, Column, cell_width}
use snowglobe.Arrow.Cells.{
  cell_bytes, widest_from, offset_width, maximum_variable_cell_bytes, column_width, widest_column,
}

-- Every cell between two neighbouring offsets has at most `m` bytes.
abbrev pub CellsWithin : ℕ → ℕ → Bytes → ℕ → ℕ → Type 0
CellsWithin m width offsets first count =
    (i : ℕ) → i < count → (n : ℕ) × (cell_bytes width offsets (first + i) ≡ ok n) × (n ≤ m)

-- No cell of the column is wider than `m` bytes.
pub data ColumnWithin (m : ℕ) (c : Column) : Type 0 where
  fixed : (w : ℕ) → cell_width c.type ≡ ok (some w) → w ≤ m → ColumnWithin m c
  empty : cell_width c.type ≡ ok none → c.count ≡ 0 → ColumnWithin m c
  variable :
      (bytes : Bytes)
      → cell_width c.type ≡ ok none
      → c.offsets ≡ some bytes
      → CellsWithin m (offset_width c.type) bytes c.offset c.count
      → ColumnWithin m c

CellsWithin-suc :
    (m width : ℕ) (offsets : Bytes) (first left n : ℕ)
    → cell_bytes width offsets first ≡ ok n
    → n ≤ m
    → CellsWithin m width offsets (suc first) left
    → CellsWithin m width offsets first (suc left)
CellsWithin-suc m width offsets first left n e low rest zero h =
    let same : first + 0 ≡ first = omega arith in (n, rw same e, low)
CellsWithin-suc m width offsets first left n e low rest (suc i) h =
    let same : first + suc i ≡ suc first + i = omega arith in rw same (rest i (omega arith))

widest_from-CellsWithin :
    (width : ℕ) (offsets : Bytes) (left index maximum r : ℕ)
    → widest_from width offsets left index maximum ≡ ok r
    → (maximum ≤ r) × CellsWithin r width offsets index left
unfolding widest_from
widest_from-CellsWithin width offsets zero index maximum r h =
    (ground arith, λ i low. absurd (omega arith))
widest_from-CellsWithin width offsets (suc left) index maximum r h =
    elim (Result-cases (cell_bytes width offsets index)) [
      | inr (x, e) ↦ absurd (cc (rw (e, widest_from) at h))
      | inl (n, e) ↦
          let (low, rest) =
            widest_from-CellsWithin width offsets left (suc index) (max maximum n) r
              (rw (e, widest_from) at h) in
          (omega arith, CellsWithin-suc r width offsets index left n e (omega arith) rest)
    ]

pub ColumnWithin-mono : (m n : ℕ) (c : Column) → m ≤ n → ColumnWithin m c → ColumnWithin n c
ColumnWithin-mono m n c h (fixed w e low) = fixed w e (omega arith)
ColumnWithin-mono m n c h (empty e z) = empty e z
ColumnWithin-mono m n c h (variable bytes e o k) =
    variable bytes e o (λ i low. let (w, q, small) = k i low in (w, q, omega arith))

variable_width-ColumnWithin :
    (c : Column) (k w : ℕ)
    → c.count ≡ k
    → cell_width c.type ≡ ok none
    → maximum_variable_cell_bytes c ≡ ok w
    → ColumnWithin w c
unfolding maximum_variable_cell_bytes
variable_width-ColumnWithin c zero w k e h = empty e k
variable_width-ColumnWithin c (suc n) w k e h = elim (Option-cases c.offsets) [
  | inl o ↦ absurd (ground arith)
  | inr (bytes, o) ↦
      let q : widest_from (offset_width c.type) bytes (suc n) c.offset 0 ≡ ok w = ground arith in
      variable bytes e o (rw k (widest_from-CellsWithin _ bytes (suc n) c.offset 0 w q).1)
]

column_width-ColumnWithin : (c : Column) (w : ℕ) → column_width c ≡ ok w → ColumnWithin w c
unfolding column_width
column_width-ColumnWithin c w h = elim (Result-cases (cell_width c.type)) [
  | inr (x, e) ↦ absurd (ground arith)
  | inl (some v, e) ↦ fixed v e (ground arith)
  | inl (none, e) ↦ variable_width-ColumnWithin c c.count w refl e (ground arith)
]

pub widest_column-ColumnWithin :
    (maximum r : ℕ) (cs : List Column)
    → widest_column maximum cs ≡ ok r
    → (maximum ≤ r) × All (ColumnWithin r) cs
unfolding widest_column
widest_column-ColumnWithin maximum r [] h = (ground arith, tt)
widest_column-ColumnWithin maximum r (c ∷ cs) h = elim (Result-cases (column_width c)) [
  | inr (x, e) ↦ absurd (cc (rw (e, widest_column) at h))
  | inl (w, e) ↦
      let (low, rest) =
        widest_column-ColumnWithin (max maximum w) r cs (rw (e, widest_column) at h) in
      (omega arith, (ColumnWithin-mono w r c (omega arith) (column_width-ColumnWithin c w e), rest))
]
