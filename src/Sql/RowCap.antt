-- ===== src/Sql/RowCap.antt =====
-- The row cap of the policy.
use snowglobe.Prelude.{
  ℕ, ◌+◌, ◌≤◌, String, ◌≡◌, refl, false, Option, some, arith, inl, inr, ltb, Bool-cases,
  Option-cases, if◌then◌else◌,
}
use snowglobe.Exec.{Result, ok, Result-cases}
use snowglobe.Sql.Glot.{Expression, Limit, Glot, number_limit}
use snowglobe.Sql.Policy.{
  Policy, is_inexact, nonnegative_integer, cap_existing, apply_row_cap, authorize,
}
use snowglobe.Sql.Soundness.{authorize-IsGoverned}

-- The expression that holds a limit's number.
abbrev pub count_expression : Limit → Option Expression
count_expression l = if l.is_limit then l.expression else l.count

-- The statement has a limit of rows, which is exact and at most `n`.
pub record IsCapped (glot : Glot) (s : glot.Statement) (n : ℕ) : Type 0 where
  pub limit : Limit
  pub found : glot.limit_of s ≡ some limit
  pub exact : is_inexact limit.options ≡ false
  pub rows : ℕ
  pub literal_rows : nonnegative_integer (count_expression limit) ≡ ok rows
  pub few : rows ≤ n

module _ (glot : Glot) where
  open glot use {
    Statement, limit_of, add_limit, set_limit, generate, limit_of-add_limit, limit_of-set_limit,
  }

  number_limit-IsCapped :
      (s : Statement) (n : ℕ) → limit_of s ≡ some (number_limit n) → IsCapped glot s n
  unfolding nonnegative_integer
  number_limit-IsCapped s n h = record {
    limit = number_limit n;
    found = h;
    exact = refl;
    rows = n;
    literal_rows = refl;
    few = omega arith;
  }

  cap_existing-IsCapped :
      (s t : Statement) (n : ℕ) (l : Limit)
      → limit_of s ≡ some l
      → cap_existing glot s n l ≡ ok t
      → IsCapped glot t n
  unfolding cap_existing
  cap_existing-IsCapped s t n l found h = elim (Bool-cases (is_inexact l.options)) [
    | inl inexact ↦ set_case (rw (inexact, cap_existing) at h)
    | inr exact ↦ elim (Result-cases (nonnegative_integer (count_expression l))) [
      | inr (x, e) ↦ absurd (cc (rw (exact, cap_existing, e) at h))
      | inl (rows, e) ↦ elim (Bool-cases (ltb n rows)) [
        | inl above ↦ set_case (rw (exact, cap_existing, e, above) at h)
        | inr below ↦
            let same : s ≡ t = cc (rw (exact, cap_existing, e, below) at h) in
            rw (← same) (record {
              limit = l;
              found = found;
              exact = exact;
              rows = rows;
              literal_rows = e;
              few = ground arith;
            })
      ]
    ]
  ]
    where
      set_case : ◌≡◌ {A = Result Statement} (ok (set_limit s n)) (ok t) → IsCapped glot t n
      set_case p =
          let same : set_limit s n ≡ t = cc in
          rw (← same) (number_limit-IsCapped (set_limit s n) n (limit_of-set_limit s n))

  pub apply_row_cap-IsCapped :
      (s t : Statement) (n : ℕ) → apply_row_cap glot s n ≡ ok t → IsCapped glot t n
  unfolding apply_row_cap
  apply_row_cap-IsCapped s t n h = elim (Option-cases (limit_of s)) [
    | inl e ↦
        let same : add_limit s n ≡ t = ground arith in
        rw (← same) (number_limit-IsCapped (add_limit s n) n (limit_of-add_limit s n))
    | inr (l, e) ↦ cap_existing-IsCapped s t n l e (ground arith)
  ]

  -- A statement whose limit is small enough already is left as it is.
  pub apply_row_cap_of_IsCapped :
      (s : Statement) (n : ℕ) → IsCapped glot s n → apply_row_cap glot s n ≡ ok s
  unfolding apply_row_cap cap_existing
  apply_row_cap_of_IsCapped s n c = ground arith

  -- The row cap is a closure: what it returns has an exact limit of at most `n` rows, and it changes
  -- no statement twice.
  pub apply_row_cap_idem :
      (s t : Statement) (n : ℕ)
      → apply_row_cap glot s n ≡ ok t
      → IsCapped glot t n × (apply_row_cap glot t n ≡ ok t)
  apply_row_cap_idem s t n h =
      let c = apply_row_cap-IsCapped s t n h in (c, apply_row_cap_of_IsCapped t n c)

  -- SQL that the policy returns was printed from a statement with an exact limit of at most one row
  -- more than the policy's maximum.
  pub authorize-IsCapped :
      (p : Policy) (sql governed : String)
      → authorize glot p sql ≡ ok governed
      → (s : Statement) × (generate s ≡ some governed) × IsCapped glot s (p.maximum_rows + 1)
  authorize-IsCapped p sql governed h =
      let g = authorize-IsGoverned glot p sql governed h in
      (g.capped, g.printed, apply_row_cap-IsCapped g.statement g.capped (p.maximum_rows + 1) g.cap)
