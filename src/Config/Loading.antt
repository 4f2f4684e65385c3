-- ===== src/Config/Loading.antt =====
-- What a profile that was loaded satisfies.
use snowglobe.Prelude.{
  String, ◌≡◌, ◌≢◌, refl, ap, Bool, true, false, List, [], ◌∷◌, arith, All, inl, inr,
}
use snowglobe.Exec.{Result, ok, err, configuration_error, Result-cases}
use snowglobe.Fallible.{require, bind_returned, >>-eq-ok, require-eq-ok}
use snowglobe.Config.Toml.{
  Value, text, integer, floating, boolean, array, table, other_value, Values, no_values, value,
  Table, get_item, keys_within, has_keys,
}
use snowglobe.Config.Profiles.{
  configured, is_one, as_table, require_exact_fields, are_distinct, required_string,
  required_strings, required_string_list, read_snowglobe_profile, load_snowglobe_profile,
}

-- the array of these texts
abbrev pub texts : List String → Values
texts [] = no_values
texts (s ∷ ss) = value (text s) (texts ss)

abbrev pub HasExactly : List String → Table → Type 0
HasExactly fields t = (keys_within fields t ≡ true) × (has_keys fields t ≡ true)

pub configured-ok {ℓ} : {A : Type ℓ} (r : Result A) (a : A) → configured r ≡ ok a → r ≡ ok a
unfolding configured
configured-ok (ok b) a h = h
configured-ok (err e) a h = absurd (cc h)

pub as_table-ok : (v : Value) (t : Table) → as_table v ≡ ok t → v ≡ table t
unfolding as_table
as_table-ok v t h = ground arith

require_exact_fields-HasExactly :
    (t : Table) (fields : List String) → require_exact_fields t fields ≡ ok tt → HasExactly fields t
unfolding require_exact_fields
require_exact_fields-HasExactly t fields h = ground arith

module _ (is_blank : String → Bool) where
  pub required_string-ok :
      (v : Value) (s : String)
      → required_string is_blank v ≡ ok s
      → (v ≡ text s) × (is_blank s ≡ false)
  unfolding required_string
  required_string-ok v s h = ground arith

  required_strings-texts :
      (vs : Values) (ss : List String)
      → required_strings is_blank vs ≡ ok ss
      → (vs ≡ texts ss) × All (λ s. is_blank s ≡ false) ss
  unfolding required_strings
  required_strings-texts no_values ss h = let same : [] ≡ ss = cc in rw (← same) (refl, tt)
  required_strings-texts (value v vs) ss h = elim (Result-cases (required_string is_blank v)) [
    | inr (x, e) ↦ absurd (cc (rw (e, required_strings) at h))
    | inl (s, e) ↦ elim (Result-cases (required_strings is_blank vs)) [
      | inr (x, f) ↦ absurd (cc (rw (e, f, required_strings) at h))
      | inl (rest, f) ↦
          let same : s ∷ rest ≡ ss = cc (rw (e, f, required_strings) at h) in
          let (is_text, full) = required_string-ok v s e in
          let (are_texts, all) = required_strings-texts vs rest f in
          rw (← same, is_text, are_texts) (refl, (full, all))
    ]
  ]

  -- The views of a profile that was loaded.
  pub record IsLoaded (loaded : Result Table) (profile_name : String) (views : List String)
      : Type 0 where
    pub document : Table
    pub parsed : loaded ≡ ok document
    pub root_fields : HasExactly ("schema_version" ∷ "profiles" ∷ []) document
    pub version : Value
    pub has_version : get_item "schema_version" document ≡ ok version
    pub first_version : is_one version ≡ true
    pub profiles : Table
    pub has_profiles : get_item "profiles" document ≡ ok (table profiles)
    pub profile : Table
    pub chosen : get_item profile_name profiles ≡ ok (table profile)
    pub profile_fields : HasExactly ("allowed_views" ∷ []) profile
    pub listed : get_item "allowed_views" profile ≡ ok (array (texts views))
    pub nonempty : views ≢ []
    pub nonblank : All (λ s. is_blank s ≡ false) views
    pub distinct : are_distinct views ≡ true

  required_string_list-ok :
      (v : Value) (ss : List String)
      → required_string_list is_blank v ≡ ok ss
      → (v ≡ array (texts ss))
        × (ss ≢ [])
        × All (λ s. is_blank s ≡ false) ss
        × (are_distinct ss ≡ true)
  unfolding required_string_list
  required_string_list-ok (array (value v vs)) ss h =
      let (values, e, k) = bind_returned (required_strings is_blank (value v vs)) _ ss h in
      let (d, last) =
        >>-eq-ok (require (are_distinct values) configuration_error) (ok values) ss k in
      let same : values ≡ ss = cc in
      let (listed, full) = required_strings-texts (value v vs) ss (rw same at e) in
      (ap array listed, λ z. cc (z, listed), full, rw same at (require-eq-ok _ _ d))
  required_string_list-ok (array no_values) ss h = absurd (cc h)
  required_string_list-ok (text s) ss h = absurd (cc h)
  required_string_list-ok (integer z) ss h = absurd (cc h)
  required_string_list-ok (floating z) ss h = absurd (cc h)
  required_string_list-ok (boolean b) ss h = absurd (cc h)
  required_string_list-ok (table t) ss h = absurd (cc h)
  required_string_list-ok other_value ss h = absurd (cc h)

  -- A policy profile that was loaded is that of a document with exactly the two root fields, a schema
  -- version that equals 1 and a table of profiles; it has exactly the field of its views, which are a
  -- list of texts: at least one, none of them blank, and no two the same.
  pub load_snowglobe_profile-IsLoaded :
      (loaded : Result Table) (profile_name : String) (views : List String)
      → load_snowglobe_profile is_blank loaded profile_name ≡ ok views
      → IsLoaded loaded profile_name views
  unfolding load_snowglobe_profile read_snowglobe_profile
  load_snowglobe_profile-IsLoaded loaded profile_name views h =
      let (document, parsed, h1) = bind_returned loaded _ views (configured-ok _ views h) in
      let (root, h2) = >>-eq-ok (require_exact_fields document _) _ views h1 in
      let (version, e3, h3) = bind_returned (get_item "schema_version" document) _ views h2 in
      let (first, h4) = >>-eq-ok (require (is_one version) configuration_error) _ views h3 in
      let (v5, e5, h5) = bind_returned (get_item "profiles" document) _ views h4 in
      let (profiles, e6, h6) = bind_returned (as_table v5) _ views h5 in
      let (v7, e7, h7) = bind_returned (get_item profile_name profiles) _ views h6 in
      let (profile, e8, h8) = bind_returned (as_table v7) _ views h7 in
      let (exact, h9) = >>-eq-ok (require_exact_fields profile _) _ views h8 in
      let (v10, e10, h10) = bind_returned (get_item "allowed_views" profile) _ views h9 in
      let (listed, some_view, full, distinct) = required_string_list-ok v10 views h10 in
      record {
        document = document;
        parsed = parsed;
        root_fields = require_exact_fields-HasExactly document _ root;
        version = version;
        has_version = e3;
        first_version = require-eq-ok _ _ first;
        profiles = profiles;
        has_profiles = rw (as_table-ok v5 profiles e6) at e5;
        profile = profile;
        chosen = rw (as_table-ok v7 profile e8) at e7;
        profile_fields = require_exact_fields-HasExactly profile _ exact;
        listed = rw listed at e10;
        nonempty = some_view;
        nonblank = full;
        distinct = distinct;
      }
