-- ===== src/Tests/Sql.antt =====
-- The SQL policy over a small stand-in for SQLGlot.
use snowglobe.Prelude.{
  ◌<◌, ◌≢◌, String, ◌≡◌, ◌↔◌, refl, true, false, Option, none, some, List, [], ◌∷◌, str_eq,
  if◌then◌else◌,
}
use snowglobe.Exec.{ok, err, query_policy_rejected}
use snowglobe.Python.{pos, require_positive}
use snowglobe.Sql.Glot.{
  identifier, Table, Relation, table, Source, from_table, Limit, Glot, number_limit,
}
use snowglobe.Sql.Names.{
  split_dots, is_first, all_later, is_unquoted, view_of_parts, configured_view, configured_views,
}
use snowglobe.Sql.Policy.{
  Policy, is_allowed_view, policy_of, from_view_names, is_local_relation, nonnegative_integer,
  canonical_identifier, canonical_view, validate_table, validate_source, validate_scope,
  validate_scopes, validate, single_query, parse_query, cap_existing, apply_row_cap, render,
  confirm, govern, authorize,
}
use snowglobe.Sql.Soundness.{IsGoverned, authorize-IsGoverned}
use snowglobe.Sql.RowCap.{IsCapped, apply_row_cap_idem, authorize-IsCapped}
use snowglobe.Sql.Views.{AreUnquoted, joined, configured_view_iff, Stand, from_view_names-Stand}

unfoldable pub program : Unit {0}
unfolding require_positive split_dots is_first all_later is_unquoted view_of_parts configured_view
    configured_views is_allowed_view policy_of from_view_names is_local_relation nonnegative_integer
    canonical_identifier canonical_view validate_table validate_source validate_scope
    validate_scopes validate single_query parse_query cap_existing apply_row_cap render confirm
    govern authorize
program = tt

pub record Select : Type 0 where
  pub relation : Relation
  pub source : Source
  pub limit : Option Limit

abbrev pub sales : Table
sales = record {
  this = identifier (some "sales") false;
  catalog = some (identifier (some "DB") false);
  db = some (identifier (some "Mart") true);
  catalog_text = "DB";
  db_text = "Mart";
}

abbrev pub select : Option Limit → Select
select l = record { relation = table; source = from_table sales; limit = l }

-- Two texts are queries, of the same table; one has the limit that the policy sets.
abbrev pub toy_parse : String → Option (List Select)
toy_parse s =
    if str_eq s "select"
    then some (select none ∷ [])
    else if str_eq s "select limit 51"
    then some (select (some (number_limit 51)) ∷ [])
    else none

abbrev pub toy_generate : Select → Option String
toy_generate s = elim s.limit [ none ↦ some "select" | some l ↦ some "select limit 51" ]

abbrev pub toy : Glot
toy = record {
  Statement = Select;
  parse = toy_parse;
  is_query = λ s. true;
  scopes = λ s. some (some (((s.relation, s.source) ∷ []) ∷ []));
  limit_of = λ s. s.limit;
  add_limit = λ s n. record s { limit = some (number_limit n) };
  set_limit = λ s n. record s { limit = some (number_limit n) };
  generate = toy_generate;
  upper = λ s. if str_eq s "sales" then "SALES" else s;
  limit_of-add_limit = λ s n. refl;
  limit_of-set_limit = λ s n. refl;
}

abbrev pub policy : Policy
policy = record { allowed_views = ("DB", "Mart", "SALES") ∷ []; maximum_rows = 50 }

pub authorize_test : authorize toy policy "select" ≡ ok "select limit 51"
unfolding program
authorize_test = refl

-- A policy for another view rejects the same text.
authorize_rejects :
    authorize toy (record policy { allowed_views = ("DB", "Mart", "sales") ∷ [] }) "select"
    ≡ err query_policy_rejected
unfolding program
authorize_rejects = refl

authorize-IsGoverned_example : IsGoverned toy policy "select limit 51"
authorize-IsGoverned_example =
    authorize-IsGoverned toy policy "select" "select limit 51" authorize_test

authorize-IsCapped_example :
    (s : Select) × (toy_generate s ≡ some "select limit 51") × IsCapped toy s 51
unfolding program
authorize-IsCapped_example = authorize-IsCapped toy policy "select" "select limit 51" refl

apply_row_cap_idem_example :
    IsCapped toy (select (some (number_limit 51))) 51
    × (apply_row_cap toy (select (some (number_limit 51))) 51
        ≡ ok (select (some (number_limit 51))))
unfolding program
apply_row_cap_idem_example =
    apply_row_cap_idem toy (select (some (number_limit 90))) (select (some (number_limit 51))) 51
      refl

configured_view_iff_example :
    (configured_view "DB.MART.SALES" ≡ ok ("DB", "MART", "SALES"))
    ↔ ((joined ("DB", "MART", "SALES") ≡ "DB.MART.SALES") × AreUnquoted ("DB", "MART", "SALES"))
configured_view_iff_example = configured_view_iff "DB.MART.SALES" ("DB", "MART", "SALES")

abbrev built : Policy
built = record { allowed_views = ("DB", "MART", "SALES") ∷ []; maximum_rows = 50 }

from_view_names-Stand_example :
    Stand ("DB.MART.SALES" ∷ []) built.allowed_views
    × (built.allowed_views ≢ [])
    × (pos 50 ≡ pos built.maximum_rows)
    × (0 < built.maximum_rows)
unfolding program
from_view_names-Stand_example = from_view_names-Stand ("DB.MART.SALES" ∷ []) (pos 50) built refl
