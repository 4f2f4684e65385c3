-- ===== src/Sql/Policy.antt =====
-- src/snowglobe/sql_policy.py: `SnowflakeSqlPolicy`.
use snowglobe.Prelude.{
  ℕ, ◌+◌, String, Bool, true, false, not, Option, none, some, List, [], ◌∷◌, ◌&&◌, ◌||◌, ltb,
  str_eq, if◌then◌else◌,
}
use snowglobe.Exec.{Result, ok, err, foreign, query_policy_rejected}
use snowglobe.Fallible.{◌>>=◌, ◌>>◌, require}
use snowglobe.Python.{ℤ, pos, negsuc, require_positive}
use snowglobe.Sql.Glot.{
  Node, identifier, Table, explode, generator, Relation, query, table, values, table_from_rows,
  lateral, Source, from_table, from_scope, Expression, literal, Limit, LimitOptions, Glot,
}
use snowglobe.Sql.Names.{ViewName, configured_views}

pub record Policy : Type 0 where
  pub allowed_views : List ViewName
  pub maximum_rows : ℕ

-- `view in self.allowed_views`
unfoldable pub is_allowed_view : ViewName → List ViewName → Bool
is_allowed_view v [] = false
is_allowed_view (a, b, c) ((a', b', c') ∷ vs) =
    (str_eq a a' && str_eq b b' && str_eq c c') || is_allowed_view (a, b, c) vs

unfoldable pub policy_of : List ViewName → Result ℕ → Result Policy
policy_of [] rows = err query_policy_rejected
policy_of (v ∷ vs) (err e) = err query_policy_rejected
policy_of (v ∷ vs) (ok n) = ok (record { allowed_views = v ∷ vs; maximum_rows = n })

-- `SnowflakeSqlPolicy.from_view_names`
unfoldable pub from_view_names : List String → ℤ → Result Policy
from_view_names names maximum_rows = elim (configured_views names) [
  | err e ↦ err query_policy_rejected
  | ok views ↦ policy_of views (require_positive maximum_rows)
]

abbrev pub is_identifier : Option Node → Bool
is_identifier (some (identifier v q)) = true
is_identifier _ = false

-- The relations that may be read although their source is no table.
unfoldable pub is_local_relation : Relation → Bool
is_local_relation query = true
is_local_relation table = true
is_local_relation values = true
is_local_relation (table_from_rows explode) = true
is_local_relation (table_from_rows (generator holds_query)) = not holds_query
is_local_relation (lateral explode) = true
is_local_relation _ = false

-- `_nonnegative_integer`
unfoldable pub nonnegative_integer : Option Expression → Result ℕ
nonnegative_integer (some (literal true (ok (pos n)))) = ok n
nonnegative_integer (some (literal true (ok (negsuc n)))) = err query_policy_rejected
nonnegative_integer (some (literal true (err e))) = err e
nonnegative_integer _ = err query_policy_rejected

-- `options is not None and (percent or with_ties)`
abbrev pub is_inexact : Option LimitOptions → Bool
is_inexact none = false
is_inexact (some o) = o.percent || o.with_ties

-- what an exception inside `authorize` becomes
abbrev pub or_reject {ℓ} : {A : Type ℓ} → Option A → Result A
or_reject none = err foreign
or_reject (some a) = ok a

abbrev pub hide {ℓ} : {A : Type ℓ} → Result A → Result A
hide (ok a) = ok a
hide (err e) = err query_policy_rejected

module _ (glot : Glot) where
  open glot use {
    Statement, parse, is_query, scopes, limit_of, add_limit, set_limit, generate, upper,
  }

  -- `_canonical_identifier`; its callers have found the node to be an identifier.
  unfoldable pub canonical_identifier : Option Node → Result String
  canonical_identifier (some (identifier (some v) quoted)) = if quoted then ok v else ok (upper v)
  canonical_identifier (some (identifier none quoted)) = err query_policy_rejected
  canonical_identifier _ = err foreign

  unfoldable pub canonical_view : Table → Result ViewName
  canonical_view t = do
    catalog ← canonical_identifier t.catalog
    db ← canonical_identifier t.db
    name ← canonical_identifier (some t.this)
    ok (catalog, db, name)

  -- `_validate_table`
  unfoldable pub validate_table : Policy → Table → Result (Unit {0})
  validate_table p t = do
    require (is_identifier (some t.this)) query_policy_rejected
    require (not (str_eq t.catalog_text "" && str_eq t.db_text "")) query_policy_rejected
    require (is_identifier t.catalog && is_identifier t.db) query_policy_rejected
    view ← canonical_view t
    require (is_allowed_view view p.allowed_views) query_policy_rejected

  unfoldable pub validate_source : Policy → Relation × Source → Result (Unit {0})
  validate_source p (relation, from_table t) = validate_table p t
  validate_source p (relation, from_scope) =
      require (is_local_relation relation) query_policy_rejected

  -- the inner loop of `_validate`
  unfoldable pub validate_scope : Policy → List (Relation × Source) → Result (Unit {0})
  validate_scope p [] = ok tt
  validate_scope p (s ∷ rest) = validate_source p s >> validate_scope p rest

  unfoldable pub validate_scopes : Policy → List (List (Relation × Source)) → Result (Unit {0})
  validate_scopes p [] = ok tt
  validate_scopes p (s ∷ rest) = validate_scope p s >> validate_scopes p rest

  -- `_validate`
  unfoldable pub validate : Policy → Statement → Result (Unit {0})
  validate p s = elim (scopes s) [
    | none ↦ err foreign
    | some none ↦ err query_policy_rejected
    | some (some list) ↦ validate_scopes p list
  ]

  -- `_parse_query`
  unfoldable pub single_query : List Statement → Result Statement
  single_query (s ∷ []) = require (is_query s) query_policy_rejected >> ok s
  single_query _ = err query_policy_rejected

  unfoldable pub parse_query : String → Result Statement
  parse_query sql = do statements ← or_reject (parse sql); single_query statements

  -- `_apply_row_cap`
  unfoldable pub cap_existing : Statement → ℕ → Limit → Result Statement
  cap_existing s n l = if is_inexact l.options then ok (set_limit s n) else do
    count ← nonnegative_integer (if l.is_limit then l.expression else l.count)
    if ltb n count then ok (set_limit s n) else ok s

  unfoldable pub apply_row_cap : Statement → ℕ → Result Statement
  apply_row_cap s n = elim (limit_of s) [ none ↦ ok (add_limit s n) | some l ↦ cap_existing s n l ]

  -- the three lines that `authorize` has for each of its two statements: check, cap, print
  unfoldable pub render : Policy → Statement → Result String
  render p s = do
    validate p s
    capped ← apply_row_cap s (p.maximum_rows + 1)
    or_reject (generate capped)

  -- the second half of `authorize`: what was printed is parsed again and has to print the same
  unfoldable pub confirm : Policy → String → Result String
  confirm p governed_sql = do
    generated ← parse_query governed_sql
    again ← render p generated
    require (str_eq again governed_sql) query_policy_rejected
    ok governed_sql

  -- what `authorize` does in its `try`
  unfoldable pub govern : Policy → String → Result String
  govern p sql = do
    statement ← parse_query sql
    governed_sql ← render p statement
    confirm p governed_sql

  -- `SnowflakeSqlPolicy.authorize`
  unfoldable pub authorize : Policy → String → Result String
  authorize p sql = hide (govern p sql)
