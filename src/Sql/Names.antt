-- ===== src/Sql/Names.antt =====
-- src/snowglobe/sql_policy.py: the configured view names.
use Prim.Native.Char.{Char, code}
use snowglobe.Prelude.{
  ℕ, String, Bool, true, false, List, [], ◌∷◌, ◌&&◌, ◌||◌, leb, ◌==◌, if◌then◌else◌,
}
use snowglobe.Exec.{Result, ok, err, query_policy_rejected}

abbrev pub ViewName : Type 0
ViewName = String × String × String

-- puts a character before the first part
abbrev pub extend_first : Char → List String → List String
extend_first c [] = String.◌∷◌ c String.[] ∷ []
extend_first c (p ∷ ps) = String.◌∷◌ c p ∷ ps

-- `name.split(".")`
unfoldable pub split_dots : String → List String
split_dots String.[] = String.[] ∷ []
split_dots (String.◌∷◌ c s) =
    let rest = split_dots s in if code c == b'.' then String.[] ∷ rest else extend_first c rest

unfoldable pub is_first : ℕ → Bool
is_first c = (leb b'A' c && leb c b'Z') || c == b'_'

unfoldable pub is_later : ℕ → Bool
unfolding is_first
is_later c = is_first c || (leb b'0' c && leb c b'9') || c == b'$'

unfoldable pub all_later : String → Bool
unfolding is_later
all_later String.[] = true
all_later (String.◌∷◌ c s) = is_later (code c) && all_later s

-- `_UNQUOTED_IDENTIFIER.fullmatch(part)`
unfoldable pub is_unquoted : String → Bool
unfolding all_later is_first
is_unquoted String.[] = false
is_unquoted (String.◌∷◌ c s) = is_first (code c) && all_later s

unfoldable pub view_of_parts : List String → Result ViewName
unfolding is_unquoted
view_of_parts (a ∷ b ∷ c ∷ []) =
    if is_unquoted a && is_unquoted b && is_unquoted c
    then ok (a, b, c)
    else err query_policy_rejected
view_of_parts _ = err query_policy_rejected

-- `_configured_view`
unfoldable pub configured_view : String → Result ViewName
unfolding view_of_parts split_dots
configured_view name = view_of_parts (split_dots name)

unfoldable pub configured_views : List String → Result (List ViewName)
unfolding configured_view
configured_views [] = ok []
configured_views (n ∷ ns) = elim (configured_view n) [
  | err e ↦ err e
  | ok v ↦ elim (configured_views ns) [ err e ↦ err e | ok vs ↦ ok (v ∷ vs) ]
]
