-- ===== src/Broker/Lifecycle.antt =====
-- The life of a request: which states a record may pass through, and what it holds in each.
use snowglobe.Prelude.{
  ℕ, String, ◌≡◌, ◌≢◌, refl, subst, ◌∙◌, Bool, true, false, Option, none, some, [], ◌∷◌, arith,
  str_eq, str_eq_iff, Bool-cases, inl, inr,
}
use snowglobe.Broker.Records.{
  RequestStatus, RequestRecord, Entries, pending, complete, failed, cancelled, expired, lookup,
  put_record,
}

-- The states that a request may reach from each state.
abbrev pub may_become : RequestStatus → RequestStatus → Bool
may_become pending _ = true
may_become complete complete = true
may_become complete cancelled = true
may_become complete expired = true
may_become failed failed = true
may_become cancelled cancelled = true
may_become expired expired = true
may_become _ _ = false

-- A source is held by complete requests only, and a cursor by pending requests only.
abbrev pub HoldsFor : RequestStatus → Option ℕ → Option ℕ → Type 0
HoldsFor pending source cursor = source ≡ none
HoldsFor complete source cursor = (source ≢ none) × (cursor ≡ none)
HoldsFor _ source cursor = (source ≡ none) × (cursor ≡ none)

abbrev pub IsConsistent : RequestRecord → Type 0
IsConsistent r = HoldsFor r.status r.source r.cursor

pub record Evolves (r r' : RequestRecord) : Type 0 where
  pub same_id : r'.request_id ≡ r.request_id
  pub same_expiry : r'.expires_at ≡ r.expires_at
  pub lawful : may_become r.status r'.status ≡ true
  pub consistent : IsConsistent r → IsConsistent r'
  pub kept : r.status ≡ complete → r'.status ≡ complete → r'.source ≡ r.source

may_become_refl : (s : RequestStatus) → may_become s s ≡ true
may_become_refl s = ground arith

may_become_trans :
    (s t u : RequestStatus) → may_become s t ≡ true → may_become t u ≡ true → may_become s u ≡ true
may_become_trans s t u h k = ground arith

-- A request that is complete at both ends was complete between.
complete_between :
    (s t u : RequestStatus)
    → may_become s t ≡ true
    → may_become t u ≡ true
    → s ≡ complete
    → u ≡ complete
    → t ≡ complete
complete_between s t u h k e f = ground arith

pub Evolves-refl : (r : RequestRecord) → Evolves r r
Evolves-refl r = record {
  same_id = refl;
  same_expiry = refl;
  lawful = may_become_refl r.status;
  consistent = λ h. h;
  kept = λ _ _. refl;
}

pub Evolves-trans : (r s t : RequestRecord) → Evolves r s → Evolves s t → Evolves r t
Evolves-trans r s t h k = record {
  same_id = k.same_id ∙ h.same_id;
  same_expiry = k.same_expiry ∙ h.same_expiry;
  lawful = may_become_trans r.status s.status t.status h.lawful k.lawful;
  consistent = λ c. k.consistent (h.consistent c);
  kept = λ p q.
      let m : s.status ≡ complete =
        complete_between r.status s.status t.status h.lawful k.lawful p q in
      k.kept m q ∙ h.kept p m;
}

-- The same keys in the same order, and each record lawfully changed.
abbrev pub EvolvesAll : Entries → Entries → Type 0
EvolvesAll [] [] = Unit
EvolvesAll ((k, r) ∷ es) ((k', r') ∷ es') = (k' ≡ k) × Evolves r r' × EvolvesAll es es'
EvolvesAll _ _ = ⊥

pub EvolvesAll-refl : (es : Entries) → EvolvesAll es es
EvolvesAll-refl [] = tt
EvolvesAll-refl ((k, r) ∷ es) = (refl, Evolves-refl r, EvolvesAll-refl es)

pub EvolvesAll-trans : (es fs gs : Entries) → EvolvesAll es fs → EvolvesAll fs gs → EvolvesAll es gs
EvolvesAll-trans [] [] [] h k = tt
EvolvesAll-trans ((i, r) ∷ es) ((j, s) ∷ fs) ((l, t) ∷ gs) h k =
    (k.0 ∙ h.0, Evolves-trans r s t h.1 k.1, EvolvesAll-trans es fs gs h.2 k.2)
EvolvesAll-trans [] [] (_ ∷ _) h k = absurd k
EvolvesAll-trans [] (_ ∷ _) _ h k = absurd h
EvolvesAll-trans (_ ∷ _) [] _ h k = absurd h
EvolvesAll-trans (_ ∷ _) (_ ∷ _) [] h k = absurd k

pub lookup-put_record_self :
    (k : String) (r v : RequestRecord) (es : Entries)
    → lookup k es ≡ some r
    → lookup k (put_record k v es) ≡ some v
unfolding lookup put_record
lookup-put_record_self k r v [] h = cc
lookup-put_record_self k r v ((j, s) ∷ es) h = ground (arith, lookup-put_record_self k r v es)

pub lookup-put_record_ne :
    (k i : String) (v : RequestRecord) (es : Entries)
    → i ≢ k
    → lookup i (put_record k v es) ≡ lookup i es
unfolding lookup put_record
lookup-put_record_ne k i v [] h = refl
lookup-put_record_ne k i v ((j, s) ∷ es) h =
    ground (arith, lookup-put_record_ne k i v es, str_eq_iff j k, str_eq_iff j i)

-- `some` is injective, seen through `Evolves`.
Evolves-of_some :
    (s r v : RequestRecord)
    → ◌≡◌ {A = Option RequestRecord} (some s) (some r)
    → Evolves r v
    → Evolves s v
Evolves-of_some s r v h e = let p : r ≡ s = cc in subst (λ x. Evolves x v) p e

pub EvolvesAll-put_record :
    (k : String) (r v : RequestRecord) (es : Entries)
    → lookup k es ≡ some r
    → Evolves r v
    → EvolvesAll es (put_record k v es)
unfolding lookup put_record
EvolvesAll-put_record k r v [] h e = tt
EvolvesAll-put_record k r v ((j, s) ∷ es) h e = elim (Bool-cases (str_eq j k)) [
  | inl here ↦ rw here (refl, Evolves-of_some s r v (rw here at h) e, EvolvesAll-refl es)
  | inr there ↦ rw there (refl, Evolves-refl s, EvolvesAll-put_record k r v es (rw there at h) e)
]
