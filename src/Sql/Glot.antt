-- ===== src/Sql/Glot.antt =====
-- What src/snowglobe/sql_policy.py reads of SQLGlot's syntax trees. SQLGlot is not the program's: its
-- parser, its scopes and its generator are parameters, and its nodes are seen by the attributes that
-- the policy looks at.
use snowglobe.Prelude.{ℕ, String, ◌≡◌, Bool, Option, none, some, List}
use snowglobe.Exec.{Result, ok}
use snowglobe.Python.{ℤ, pos}

-- A node in the place of a name: an `exp.Identifier` with its `this`, if that is a `str`, and its
-- `quoted`; or any other node.
pub data Node : Type 0 where
  identifier : Option String → Bool → Node
  other_node : Node

-- An `exp.Table`: `table.this`, `table.args.get("catalog")`, `table.args.get("db")`, and the texts
-- `table.catalog` and `table.db`.
pub record Table : Type 0 where
  pub this : Node
  pub catalog : Option Node
  pub db : Option Node
  pub catalog_text : String
  pub db_text : String

-- The `this` of an `exp.TableFromRows` or an `exp.Lateral`; of an `exp.Generator`, whether it holds an
-- `exp.Query`.
pub data Rows : Type 0 where
  explode : Rows
  generator : Bool → Rows
  other_rows : Rows

pub data Relation : Type 0 where
  query table values : Relation
  table_from_rows : Rows → Relation
  lateral : Rows → Relation
  other_relation : Relation

-- The source of a relation: an `exp.Table`, or another scope.
pub data Source : Type 0 where
  from_table : Table → Source
  from_scope : Source

-- An `exp.Literal`: `is_int`, and what `int(expression.this)` gives or raises; or any other node.
pub data Expression : Type 0 where
  literal : Bool → Result ℤ → Expression
  other_expression : Expression

pub record LimitOptions : Type 0 where
  pub percent : Bool
  pub with_ties : Bool

-- The `limit` argument of a query: an `exp.Limit` with its `expression`, or an `exp.Fetch` with its
-- `count`.
pub record Limit : Type 0 where
  pub is_limit : Bool
  pub options : Option LimitOptions
  pub expression : Option Expression
  pub count : Option Expression

-- `exp.Limit(expression=exp.Literal.number(n))`
abbrev pub number_limit : ℕ → Limit
number_limit n = record {
  is_limit = Bool.true;
  options = none;
  expression = some (literal Bool.true (ok (pos n)));
  count = none;
}

-- SQLGlot, and Python's `str.upper`. `none` is an exception. `add_limit s n` is
-- `s.limit(n, copy=False)`, and `set_limit s n` is `s.set("limit", exp.Limit(…))`: both leave a query
-- whose limit is the number.
pub record Glot : Type 1 where
  pub Statement : Type 0
  pub parse : String → Option (List Statement)
  pub is_query : Statement → Bool
  pub scopes : Statement → Option (Option (List (List (Relation × Source))))
  pub limit_of : Statement → Option Limit
  pub add_limit : Statement → ℕ → Statement
  pub set_limit : Statement → ℕ → Statement
  pub generate : Statement → Option String
  pub upper : String → String
  pub limit_of-add_limit :
      (s : Statement) (n : ℕ) → limit_of (add_limit s n) ≡ some (number_limit n)
  pub limit_of-set_limit :
      (s : Statement) (n : ℕ) → limit_of (set_limit s n) ≡ some (number_limit n)
