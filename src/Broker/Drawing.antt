-- ===== src/Broker/Drawing.antt =====
-- The loop of `_new_request_id` ends: tokens that differ run out of taken keys.
use snowglobe.Prelude.{
  sym, ◌+◌, ℕ, zero, suc, ◌≤◌, ◌<◌, String, ◌≡◌, ◌≢◌, refl, some, [], ◌∷◌, arith, length,
  Option-cases, inl, inr, str_eq, str_eq_iff, if◌then◌else◌,
}
use snowglobe.Broker.Records.{RequestRecord, Entries, lookup}
use snowglobe.Broker.Bodies.{draw_id}

-- the entries under other keys
without_key : String → Entries → Entries
without_key k [] = []
without_key k ((j, r) ∷ es) =
    let rest = without_key k es in if str_eq j k then rest else (j, r) ∷ rest

lookup-without_key :
    (k i : String) (es : Entries) → i ≢ k → lookup i (without_key k es) ≡ lookup i es
unfolding lookup without_key
lookup-without_key k i [] h = refl
lookup-without_key k i ((j, r) ∷ es) h =
    ground (arith, lookup-without_key k i es, str_eq_iff j k, str_eq_iff j i)

length-without_key-le : (k : String) (es : Entries) → length (without_key k es) ≤ length es
unfolding without_key
length-without_key-le k [] = omega arith
length-without_key-le k ((j, r) ∷ es) = ground (arith, length-without_key-le k es)

length-without_key :
    (k : String) (es : Entries) (r : RequestRecord)
    → lookup k es ≡ some r
    → length (without_key k es) < length es
unfolding lookup without_key
length-without_key k [] r h = cc
length-without_key k ((j, s) ∷ es) r h =
    ground (arith, length-without_key k es r, length-without_key-le k es)

-- The tokens at so many positions from a start on differ.
abbrev pub Differ : (ℕ → String) → ℕ → ℕ → Type 0
Differ token start count = (i j : ℕ) → start ≤ i → i < j → j < start + count → token i ≢ token j

abbrev pub Drawn : (ℕ → String) → ℕ → Entries → ℕ → Type 0
Drawn token fuel es n = (k : String) × (m : ℕ) × (draw_id token fuel es n ≡ some (k, m))

module _ (token : ℕ → String) where
  -- Entries under a key that no later token is do not matter.
  draw_id-without_key :
      (k : String) (fuel : ℕ) (es : Entries) (n : ℕ)
      → ((i : ℕ) → n ≤ i → i < n + fuel → token i ≢ k)
      → draw_id token fuel (without_key k es) n ≡ draw_id token fuel es n
  unfolding draw_id
  draw_id-without_key k zero es n h = refl
  draw_id-without_key k (suc fuel) es n h =
      let e : lookup (token n) (without_key k es) ≡ lookup (token n) es =
        lookup-without_key k (token n) es (h n (omega arith) (omega arith)) in
      ground (
        arith,
        draw_id-without_key k fuel es (suc n) (λ i low high. h i (omega arith) (omega arith)),
      )

  pub draw_id-total :
      (fuel : ℕ) (es : Entries) (n : ℕ)
      → Differ token n fuel
      → length es < fuel
      → Drawn token fuel es n
  unfolding draw_id
  draw_id-total zero es n differ h = elim h [ ]
  draw_id-total (suc fuel) es n differ h = elim (Option-cases (lookup (token n) es)) [
    | inl e ↦ (token n, suc n, ground arith)
    | inr (r, e) ↦
        let k = token n in
        let fewer : length (without_key k es) < fuel = omega (arith, length-without_key k es r e) in
        let (k', m, p) =
          draw_id-total fuel (without_key k es) (suc n)
            (λ i j low less high. differ i j (omega arith) less (omega arith)) fewer in
        let later : (i : ℕ) → suc n ≤ i → i < suc n + fuel → token i ≢ k =
          λ i low high same. differ n i (omega arith) (omega arith) (omega arith) (sym same) in
        (k', m, ground (arith, draw_id-without_key k fuel es (suc n) later, p))
  ]
