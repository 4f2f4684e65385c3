-- ===== src/Arrow/Totals.antt =====
-- `admit_record_batches` as a whole: the totals of an admitted result, and its later streaming.
use snowglobe.Prelude.{
  ℕ, ◌+◌, ◌≤◌, ◌≡◌, refl, ap, ◌∙◌, true, List, [], ◌∷◌, ◌++◌, map, arith, All, inl, inr,
}
use mathlib.Core.List.{append_assoc, append-nil}
use snowglobe.Exec.{ok, Result-cases}
use snowglobe.Arrow.Types.{Bytes, RecordBatch, Column, DataType, ArrowAdmissionLimits, cell_width}
use snowglobe.Arrow.Cells.{maximum_cell_bytes, widest_column}
use snowglobe.Arrow.Library.{PyArrow, Item, batch, not_batch}
use snowglobe.Arrow.Admission.{AdmissionState, check_types, admit, admit_all, check_cells}
use snowglobe.Arrow.Steps.{Admits, admit-Admits}
use snowglobe.Arrow.Soundness.{ColumnWithin, ColumnWithin-mono, widest_column-ColumnWithin}

ColumnsWithin-mono :
    (m n : ℕ) (cs : List Column) → m ≤ n → All (ColumnWithin m) cs → All (ColumnWithin n) cs
ColumnsWithin-mono m n [] h a = tt
ColumnsWithin-mono m n (c ∷ cs) h a =
    (ColumnWithin-mono m n c h a.0, ColumnsWithin-mono m n cs h a.1)

-- The columns of a schema have types that the code can measure.
abbrev pub AreSupported : List DataType → Type 0
AreSupported = All (λ t. (w : _) × (cell_width t ≡ ok w))

pub check_types-AreSupported : (ts : List DataType) → check_types ts ≡ ok tt → AreSupported ts
unfolding check_types
check_types-AreSupported [] h = tt
check_types-AreSupported (t ∷ ts) h = elim (Result-cases (cell_width t)) [
  | inr (x, e) ↦ absurd (cc (rw (e, check_types) at h))
  | inl (w, e) ↦ ((w, e), check_types-AreSupported ts (rw (e, check_types) at h))
]

module _ (pa : PyArrow) where
  open pa use {Schema, equals, field_types}

  abbrev pub total_rows : List (RecordBatch Schema) → ℕ
  total_rows [] = 0
  total_rows (b ∷ bs) = b.num_rows + total_rows bs

  abbrev pub total_bytes : List (RecordBatch Schema) → ℕ
  total_bytes [] = 0
  total_bytes (b ∷ bs) = b.nbytes + total_bytes bs

  -- A batch of the schema with no cell above the limit.
  abbrev pub IsAdmissible : Schema → ArrowAdmissionLimits → RecordBatch Schema → Type 0
  IsAdmissible s limits b =
      (equals b.schema s ≡ true) × All (ColumnWithin limits.maximum_cell_bytes) b.columns

  check_cells-ColumnsWithin :
      (b : RecordBatch Schema) (limits : ArrowAdmissionLimits)
      → check_cells pa b limits ≡ ok tt
      → All (ColumnWithin limits.maximum_cell_bytes) b.columns
  unfolding check_cells maximum_cell_bytes
  check_cells-ColumnsWithin b limits h = elim (Result-cases (widest_column 0 b.columns)) [
    | inr (x, e) ↦ absurd (ground arith)
    | inl (w, e) ↦
        ColumnsWithin-mono w limits.maximum_cell_bytes b.columns (ground arith)
          (widest_column-ColumnWithin 0 w b.columns e).1
  ]

  -- What a run of the loop from the state `s` did: the batches `bs` were admitted.
  pub record Ran (s : AdmissionState pa) (bs : List (RecordBatch Schema)) (s' : AdmissionState pa)
      : Type 0 where
    pub same_schema : s'.schema ≡ s.schema
    pub same_limits : s'.limits ≡ s.limits
    pub rows : s'.rows ≡ s.rows + total_rows bs
    pub decoded_bytes : s'.decoded_bytes ≡ s.decoded_bytes + total_bytes bs
    pub few_rows : s.rows ≤ s.limits.maximum_rows → s'.rows ≤ s.limits.maximum_rows
    pub few_decoded :
        s.decoded_bytes ≤ s.limits.maximum_decoded_bytes
        → s'.decoded_bytes ≤ s.limits.maximum_decoded_bytes
    pub admissible : All (IsAdmissible s.schema s.limits) bs

  Ran-refl : (s : AdmissionState pa) → Ran s [] s
  Ran-refl s = record {
    same_schema = refl;
    same_limits = refl;
    rows = omega arith;
    decoded_bytes = omega arith;
    few_rows = λ h. h;
    few_decoded = λ h. h;
    admissible = tt;
  }

  Ran-cons :
      (b : RecordBatch Schema) (bs : List (RecordBatch Schema)) (s t u : AdmissionState pa)
      → Admits pa b s t
      → Ran t bs u
      → Ran s (b ∷ bs) u
  Ran-cons b bs s t u a r = record {
    same_schema = r.same_schema ∙ a.same_schema;
    same_limits = r.same_limits ∙ a.same_limits;
    rows = omega (arith, r.rows, a.rows);
    decoded_bytes = omega (arith, r.decoded_bytes, a.decoded_bytes);
    few_rows = λ h. rw a.same_limits at (r.few_rows (rw a.same_limits a.few_rows));
    few_decoded = λ h. rw a.same_limits at (r.few_decoded (rw a.same_limits a.few_decoded));
    admissible = (
      (a.fits_schema, check_cells-ColumnsWithin b s.limits a.cells),
      rw (a.same_schema, a.same_limits) at r.admissible,
    );
  }

  -- The batches of a run: what is returned, after what had been admitted before.
  pub record Looped (items : List (Item Schema)) (acc : List (RecordBatch Schema))
      (s : AdmissionState pa) (admitted : List (RecordBatch Schema)) (s' : AdmissionState pa)
      : Type 0 where
    pub batches : List (RecordBatch Schema)
    pub returned : admitted ≡ acc ++ batches
    pub given : items ≡ map batch batches
    pub ran : Ran s batches s'

  pub admit_all-cons :
      (b : RecordBatch Schema) (rest : List (Item Schema)) (acc : List (RecordBatch Schema))
      (s : AdmissionState pa) (c : Bytes)
      → (admit pa (batch b) s).0 ≡ ok c
      → admit_all pa (batch b ∷ rest) acc s
        ≡ admit_all pa rest (acc ++ b ∷ []) (admit pa (batch b) s).1
  admit_all-cons b rest acc s c e = unfold admit_all in rw (e, admit_all)

  pub admit_all-Looped :
      (items : List (Item Schema)) (acc : List (RecordBatch Schema)) (s : AdmissionState pa)
      (admitted : List (RecordBatch Schema))
      → (admit_all pa items acc s).0 ≡ ok admitted
      → Looped items acc s admitted (admit_all pa items acc s).1
  admit_all-Looped [] acc s admitted h =
      unfold admit_all in
      record { batches = []; returned = rw append-nil (cc h); given = refl; ran = Ran-refl s }
  admit_all-Looped (not_batch ∷ rest) acc s admitted h = absurd (unfold admit_all in cc h)
  admit_all-Looped (batch b ∷ rest) acc s admitted h =
      elim (Result-cases (admit pa (batch b) s).0) [
        | inr (x, e) ↦ absurd (unfold admit_all in cc (rw (e, admit_all) at h))
        | inl (c, e) ↦
            let t = (admit pa (batch b) s).1 in
            let step = admit_all-cons b rest acc s c e in
            let l = admit_all-Looped rest (acc ++ b ∷ []) t admitted (rw step at h) in
            record {
              batches = b ∷ l.batches;
              returned = l.returned ∙ append_assoc acc (b ∷ []) l.batches;
              given = ap (◌∷◌ (batch b)) l.given;
              ran = rw step (Ran-cons b l.batches s t _ (admit-Admits pa b s c e) l.ran);
            }
      ]
