-- ===== src/Sql/Soundness.antt =====
-- What the SQL that the policy returns can read.
use snowglobe.Prelude.{
  ◌+◌, String, ◌≡◌, ◌⊎◌, true, false, Option, none, some, List, [], ◌∷◌, ◌&&◌, arith, inl, inr,
  str_eq, str_eq_iff, All, Bool-cases, Option-cases,
}
use snowglobe.Exec.{ok, query_policy_rejected, Result-cases}
use snowglobe.Fallible.{>>-eq-ok, require-eq-ok}
use snowglobe.Sql.Glot.{
  Node, identifier, other_node, Table, explode, generator, Relation, query, table, values,
  table_from_rows, lateral, Source, from_table, from_scope, Glot,
}
use snowglobe.Sql.Names.{ViewName}
use snowglobe.Sql.Policy.{
  Policy, is_allowed_view, is_local_relation, canonical_identifier, canonical_view, single_query,
  validate_table, validate_source, validate_scope, validate_scopes, validate, parse_query,
  apply_row_cap, render, confirm, govern, authorize,
}

abbrev pub Listed : ViewName → List ViewName → Type 0
Listed v [] = ⊥
Listed v (w ∷ ws) = (v ≡ w) ⊎ Listed v ws

-- Rows that come from the query itself: a subquery, an alias, literal values, a flattened value, or a
-- generator with no query inside.
pub data IsLocal : Relation → Type 0 where
  of_query : IsLocal query
  of_table : IsLocal table
  of_values : IsLocal values
  of_explode : IsLocal (table_from_rows explode)
  of_generator : IsLocal (table_from_rows (generator false))
  of_lateral : IsLocal (lateral explode)

is_allowed_view-Listed :
    (v : ViewName) (ws : List ViewName) → is_allowed_view v ws ≡ true → Listed v ws
unfolding is_allowed_view
is_allowed_view-Listed v [] h = absurd (cc h)
is_allowed_view-Listed (a, b, c) ((a', b', c') ∷ ws) h =
    elim (Bool-cases (str_eq a a' && str_eq b b' && str_eq c c')) [
      | inl same ↦ inl (ground (arith, str_eq_iff a a', str_eq_iff b b', str_eq_iff c c'))
      | inr other ↦ inr (is_allowed_view-Listed (a, b, c) ws (rw other at h))
    ]

is_local_relation-IsLocal : (r : Relation) → is_local_relation r ≡ true → IsLocal r
unfolding is_local_relation
is_local_relation-IsLocal query h = of_query
is_local_relation-IsLocal table h = of_table
is_local_relation-IsLocal values h = of_values
is_local_relation-IsLocal (table_from_rows explode) h = of_explode
is_local_relation-IsLocal (table_from_rows (generator false)) h = of_generator
is_local_relation-IsLocal (table_from_rows (generator true)) h = absurd (cc h)
is_local_relation-IsLocal (lateral explode) h = of_lateral
is_local_relation-IsLocal _ h = absurd (cc h)

module _ (glot : Glot) where
  open glot use {Statement, parse, is_query, scopes, generate, upper}

  -- The name that Snowflake gives an identifier: as it is if quoted, in capitals otherwise.
  abbrev pub Denotes : Option Node → String → Type 0
  Denotes (some (identifier (some v) true)) n = n ≡ v
  Denotes (some (identifier (some v) false)) n = n ≡ upper v
  Denotes _ n = ⊥

  pub record ReadsAllowedView (p : Policy) (t : Table) : Type 0 where
    pub catalog : String
    pub db : String
    pub name : String
    pub catalog_denotes : Denotes t.catalog catalog
    pub db_denotes : Denotes t.db db
    pub name_denotes : Denotes (some t.this) name
    pub listed : Listed (catalog, db, name) p.allowed_views

  abbrev pub IsAllowedSource : Policy → Relation × Source → Type 0
  IsAllowedSource p (relation, from_table t) = ReadsAllowedView p t
  IsAllowedSource p (relation, from_scope) = IsLocal relation

  -- Every source of every scope is an allowed view, or rows of the query's own.
  pub record IsAuthorized (p : Policy) (s : Statement) : Type 0 where
    pub list : List (List (Relation × Source))
    pub found : scopes s ≡ some (some list)
    pub allowed : All (λ scope. All (IsAllowedSource p) scope) list

  canonical_identifier-Denotes :
      (o : Option Node) (n : String) → canonical_identifier glot o ≡ ok n → Denotes o n
  unfolding canonical_identifier
  canonical_identifier-Denotes (some (identifier (some v) true)) n h = ground arith
  canonical_identifier-Denotes (some (identifier (some v) false)) n h = ground arith
  canonical_identifier-Denotes (some (identifier none q)) n h = absurd (cc h)
  canonical_identifier-Denotes (some other_node) n h = absurd (cc h)
  canonical_identifier-Denotes none n h = absurd (cc h)

  canonical_view-parts :
      (t : Table) (a b c : String)
      → canonical_view glot t ≡ ok (a, b, c)
      → (canonical_identifier glot t.catalog ≡ ok a)
        × (canonical_identifier glot t.db ≡ ok b)
        × (canonical_identifier glot (some t.this) ≡ ok c)
  unfolding canonical_view
  canonical_view-parts t a b c h = ground arith

  validate_table-ReadsAllowedView :
      (p : Policy) (t : Table) → validate_table glot p t ≡ ok tt → ReadsAllowedView p t
  unfolding validate_table
  validate_table-ReadsAllowedView p t h = elim (Result-cases (canonical_view glot t)) [
    | inr (x, e) ↦ absurd (ground arith)
    | inl ((a, b, c), e) ↦
        let (da, db, dc) = canonical_view-parts t a b c e in
        record {
          catalog = a;
          db = b;
          name = c;
          catalog_denotes = canonical_identifier-Denotes t.catalog a da;
          db_denotes = canonical_identifier-Denotes t.db b db;
          name_denotes = canonical_identifier-Denotes (some t.this) c dc;
          listed = is_allowed_view-Listed (a, b, c) p.allowed_views (ground arith);
        }
  ]

  validate_source-IsAllowedSource :
      (p : Policy) (s : Relation × Source) → validate_source glot p s ≡ ok tt → IsAllowedSource p s
  unfolding validate_source
  validate_source-IsAllowedSource p (r, from_table t) h = validate_table-ReadsAllowedView p t h
  validate_source-IsAllowedSource p (r, from_scope) h =
      is_local_relation-IsLocal r (require-eq-ok _ query_policy_rejected h)

  validate_scope-All :
      (p : Policy) (list : List (Relation × Source))
      → validate_scope glot p list ≡ ok tt
      → All (IsAllowedSource p) list
  unfolding validate_scope
  validate_scope-All p [] h = tt
  validate_scope-All p (s ∷ rest) h =
      let (first, more) = >>-eq-ok (validate_source glot p s) (validate_scope glot p rest) tt h in
      (validate_source-IsAllowedSource p s first, validate_scope-All p rest more)

  validate_scopes-All :
      (p : Policy) (list : List (List (Relation × Source)))
      → validate_scopes glot p list ≡ ok tt
      → All (λ scope. All (IsAllowedSource p) scope) list
  unfolding validate_scopes
  validate_scopes-All p [] h = tt
  validate_scopes-All p (s ∷ rest) h =
      let (first, more) = >>-eq-ok (validate_scope glot p s) (validate_scopes glot p rest) tt h in
      (validate_scope-All p s first, validate_scopes-All p rest more)

  pub validate-IsAuthorized :
      (p : Policy) (s : Statement) → validate glot p s ≡ ok tt → IsAuthorized p s
  unfolding validate
  validate-IsAuthorized p s h = elim (Option-cases (scopes s)) [
    | inl e ↦ absurd (ground arith)
    | inr (none, e) ↦ absurd (ground arith)
    | inr (some list, e) ↦ record {
      list = list;
      found = e;
      allowed = validate_scopes-All p list (ground arith);
    }
  ]

  -- The SQL that is returned is one read query, whose every source is allowed, and which the row cap
  -- leaves as it is.
  pub record IsGoverned (p : Policy) (sql : String) : Type 0 where
    pub statement : Statement
    pub parsed : parse sql ≡ some (statement ∷ [])
    pub is_read : is_query statement ≡ true
    pub authorized : IsAuthorized p statement
    pub capped : Statement
    pub cap : apply_row_cap glot statement (p.maximum_rows + 1) ≡ ok capped
    pub printed : generate capped ≡ some sql

  parse_query-parse :
      (sql : String) (s : Statement)
      → parse_query glot sql ≡ ok s
      → (parse sql ≡ some (s ∷ [])) × (is_query s ≡ true)
  unfolding parse_query single_query
  parse_query-parse sql s h = ground arith

  render-eq-ok :
      (p : Policy) (s : Statement) (sql : String)
      → render glot p s ≡ ok sql
      → (validate glot p s ≡ ok tt)
        × ((capped : Statement) × (apply_row_cap glot s (p.maximum_rows + 1) ≡ ok capped)
            × (generate capped ≡ some sql))
  unfolding render
  render-eq-ok p s sql h = elim (Result-cases (apply_row_cap glot s (p.maximum_rows + 1))) [
    | inr (x, e) ↦ absurd (ground arith)
    | inl (capped, e) ↦ (ground arith, (capped, e, ground arith))
  ]

  confirm-IsGoverned :
      (p : Policy) (sql governed : String)
      → confirm glot p sql ≡ ok governed
      → IsGoverned p governed
  unfolding confirm
  confirm-IsGoverned p sql governed h = elim (Result-cases (parse_query glot sql)) [
    | inr (x, e) ↦ absurd (ground arith)
    | inl (s, e) ↦ elim (Result-cases (render glot p s)) [
      | inr (x, q) ↦ absurd (ground arith)
      | inl (again, q) ↦
          let same : again ≡ governed = ground (arith, str_eq_iff again sql) in
          let kept : sql ≡ governed = ground (arith, str_eq_iff again sql) in
          let (parsed, read) = parse_query-parse sql s e in
          let (valid, (capped, cap, printed)) = render-eq-ok p s again q in
          record {
            statement = s;
            parsed = rw kept at parsed;
            is_read = read;
            authorized = validate-IsAuthorized p s valid;
            capped = capped;
            cap = cap;
            printed = rw same at printed;
          }
    ]
  ]

  -- SQL that the policy returns is parsed by SQLGlot as one read query, in which every table of
  -- every scope is an allowed view and every other source is local, and which the row cap followed by
  -- the printer gives back as it is.
  pub authorize-IsGoverned :
      (p : Policy) (sql governed : String)
      → authorize glot p sql ≡ ok governed
      → IsGoverned p governed
  unfolding authorize govern
  authorize-IsGoverned p sql governed h = elim (Result-cases (parse_query glot sql)) [
    | inr (x, e) ↦ absurd (ground arith)
    | inl (s, e) ↦ elim (Result-cases (render glot p s)) [
      | inr (x, q) ↦ absurd (ground arith)
      | inl (text, q) ↦ elim (Result-cases (confirm glot p text)) [
        | inr (x, r) ↦ absurd (ground arith)
        | inl (g, r) ↦ confirm-IsGoverned p text governed (ground arith)
      ]
    ]
  ]
