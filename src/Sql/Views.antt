-- ===== src/Sql/Views.antt =====
-- The configured view names, and what a policy that was built from them holds.
use Prim.Native.Char.{Char, code}
use text.Mathlib.TextEquality.{Char-path}
use snowglobe.Prelude.{
  ℕ, ◌<◌, String, ◌≡◌, ◌≢◌, ◌↔◌, refl, ap, sym, ◌∙◌, true, false, List, [], ◌∷◌, arith, ◌==◌, inl,
  inr, Bool-cases,
}
use snowglobe.Exec.{Result, ok, err, Result-cases}
use snowglobe.Python.{ℤ, pos, require_positive, require_positive-eq-ok}
use snowglobe.Sql.Names.{
  ViewName, extend_first, split_dots, is_unquoted, all_later, configured_view, configured_views,
  view_of_parts,
}
use snowglobe.Sql.Policy.{Policy, policy_of, from_view_names}

-- `first + rest`
abbrev pub append : String → String → String
append String.[] t = t
append (String.◌∷◌ c s) t = String.◌∷◌ c (append s t)

abbrev pub dot : Char
dot = "."

-- `".".join(parts)`
abbrev pub join_dots : List String → String
join_dots [] = String.[]
join_dots (p ∷ []) = p
join_dots (p ∷ q ∷ ps) = append p (String.◌∷◌ dot (join_dots (q ∷ ps)))

join_dots-extend_first :
    (c : Char) (p : String) (ps : List String)
    → join_dots (extend_first c (p ∷ ps)) ≡ String.◌∷◌ c (join_dots (p ∷ ps))
join_dots-extend_first c p [] = refl
join_dots-extend_first c p (q ∷ ps) = refl

split_dots_nonempty : (s : String) → (p : String) × (ps : List String) × (split_dots s ≡ p ∷ ps)
unfolding split_dots
split_dots_nonempty String.[] = (String.[], [], refl)
split_dots_nonempty (String.◌∷◌ c s) = elim (Bool-cases (code c == b'.')) [
  | inl e ↦ (String.[], split_dots s, ground arith)
  | inr e ↦ let (p, ps, q) = split_dots_nonempty s in (String.◌∷◌ c p, ps, ground arith)
]

pub join_dots-split_dots : (s : String) → join_dots (split_dots s) ≡ s
unfolding split_dots
join_dots-split_dots String.[] = refl
join_dots-split_dots (String.◌∷◌ c s) =
    let (p, ps, q) = split_dots_nonempty s in
    let ih : join_dots (split_dots s) ≡ s = join_dots-split_dots s in
    let ih' : join_dots (p ∷ ps) ≡ s = rw q at ih in
    elim (Bool-cases (code c == b'.')) [
      | inl e ↦ let d : c ≡ dot = Char-path c dot (ground arith) in rw (e, split_dots, q, ih', d)
      | inr e ↦ rw (e, split_dots, q, join_dots-extend_first, ih')
    ]

split_dots-append :
    (p t : String)
    → all_later p ≡ true
    → split_dots (append p (String.◌∷◌ dot t)) ≡ p ∷ split_dots t
unfolding split_dots all_later
split_dots-append String.[] t h = refl
split_dots-append (String.◌∷◌ c s) t h =
    let ih : split_dots (append s (String.◌∷◌ dot t)) ≡ s ∷ split_dots t =
      split_dots-append s t (ground arith) in
    let other : (code c == b'.') ≡ false = ground arith in rw (ih, other)

split_dots_last : (p : String) → all_later p ≡ true → split_dots p ≡ p ∷ []
unfolding split_dots all_later
split_dots_last String.[] h = refl
split_dots_last (String.◌∷◌ c s) h =
    let ih : split_dots s ≡ s ∷ [] = split_dots_last s (ground arith) in
    let other : (code c == b'.') ≡ false = ground arith in rw (ih, other)

later_of_unquoted : (p : String) → is_unquoted p ≡ true → all_later p ≡ true
unfolding is_unquoted all_later
later_of_unquoted String.[] h = refl
later_of_unquoted (String.◌∷◌ c s) h = ground arith

abbrev pub AreUnquoted : ViewName → Type 0
AreUnquoted (a, b, c) = (is_unquoted a ≡ true) × (is_unquoted b ≡ true) × (is_unquoted c ≡ true)

abbrev pub joined : ViewName → String
joined (a, b, c) = join_dots (a ∷ b ∷ c ∷ [])

view_of_parts-eq-ok :
    (parts : List String) (a b c : String)
    → view_of_parts parts ≡ ok (a, b, c)
    → (parts ≡ a ∷ b ∷ c ∷ []) × AreUnquoted (a, b, c)
unfolding view_of_parts
view_of_parts-eq-ok (x ∷ y ∷ z ∷ []) a b c h = ground arith
view_of_parts-eq-ok _ a b c h = absurd (cc h)

-- The parts of a joined name are its parts.
split_dots-joined :
    (a b c : String) → AreUnquoted (a, b, c) → split_dots (joined (a, b, c)) ≡ a ∷ b ∷ c ∷ []
split_dots-joined a b c (ua, ub, uc) =
    split_dots-append a _ (later_of_unquoted a ua)
    ∙ ap (◌∷◌ a) (
        split_dots-append b c (later_of_unquoted b ub)
        ∙ ap (◌∷◌ b) (split_dots_last c (later_of_unquoted c uc)))

accepted :
    (name a b c : String)
    → joined (a, b, c) ≡ name
    → AreUnquoted (a, b, c)
    → configured_view name ≡ ok (a, b, c)
unfolding configured_view view_of_parts
accepted name a b c e u = rw (← e, split_dots-joined a b c u) (ground arith)

parsed :
    (name a b c : String)
    → configured_view name ≡ ok (a, b, c)
    → (joined (a, b, c) ≡ name) × AreUnquoted (a, b, c)
unfolding configured_view
parsed name a b c h =
    let (parts, unquoted) = view_of_parts-eq-ok (split_dots name) a b c h in
    (sym (ap join_dots parts) ∙ join_dots-split_dots name, unquoted)

-- A configured name is accepted, as the view of its three parts, exactly if it is three unquoted
-- identifiers in capitals that are joined by dots.
pub configured_view_iff :
    (name : String) (v : ViewName)
    → (configured_view name ≡ ok v) ↔ ((joined v ≡ name) × AreUnquoted v)
configured_view_iff name (a, b, c) = (parsed name a b c, λ h. accepted name a b c h.0 h.1)

-- The names and the views that they stand for, in order.
abbrev pub Stand : List String → List ViewName → Type 0
Stand [] [] = Unit
Stand (n ∷ ns) (v ∷ vs) = ((joined v ≡ n) × AreUnquoted v) × Stand ns vs
Stand _ _ = ⊥

configured_views-Stand :
    (names : List String) (views : List ViewName)
    → configured_views names ≡ ok views
    → Stand names views
unfolding configured_views
configured_views-Stand [] views h = let e : views ≡ [] = cc in rw e tt
configured_views-Stand (n ∷ ns) views h = elim (Result-cases (configured_view n)) [
  | inr (x, e) ↦ absurd (ground arith)
  | inl (v, e) ↦ elim (Result-cases (configured_views ns)) [
    | inr (x, q) ↦ absurd (ground arith)
    | inl (vs, q) ↦
        let same : views ≡ v ∷ vs = ground arith in
        rw same ((configured_view_iff n v).0 e, configured_views-Stand ns vs q)
  ]
]

policy_of-eq-ok :
    (views : List ViewName) (rows : Result ℕ) (p : Policy)
    → policy_of views rows ≡ ok p
    → (p.allowed_views ≡ views) × (views ≢ []) × (rows ≡ ok p.maximum_rows)
unfolding policy_of
policy_of-eq-ok [] rows p h = absurd (cc h)
policy_of-eq-ok (v ∷ vs) (err e) p h = absurd (cc h)
policy_of-eq-ok (v ∷ vs) (ok n) p h = (ground arith, λ e. cc e, ground arith)

-- A policy that was built from view names holds the views that they stand for, at least one, and a
-- positive maximum of rows.
pub from_view_names-Stand :
    (names : List String) (rows : ℤ) (p : Policy)
    → from_view_names names rows ≡ ok p
    → Stand names p.allowed_views
      × (p.allowed_views ≢ [])
      × (rows ≡ pos p.maximum_rows)
      × (0 < p.maximum_rows)
unfolding from_view_names
from_view_names-Stand names rows p h = elim (Result-cases (configured_views names)) [
  | inr (x, e) ↦ absurd (ground arith)
  | inl (views, e) ↦
      let (same, some', positive) =
        policy_of-eq-ok views (require_positive rows) p (ground arith) in
      let (eq, low) = require_positive-eq-ok rows p.maximum_rows positive in
      (rw same (configured_views-Stand names views e), rw same some', eq, low)
]
