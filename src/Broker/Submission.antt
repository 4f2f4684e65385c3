-- ===== src/Broker/Submission.antt =====
-- `submit`: the capacity tests, the fresh request id, the new pending record.
use snowglobe.Prelude.{
  ℕ, zero, suc, ◌≤◌, ◌<◌, String, ◌≡◌, ◌⊎◌, refl, Option, none, some, [], ◌∷◌, ◌++◌, arith,
  All-append, length, length-append, str_eq_iff, Bool-cases, Option-cases, inl, inr, ltb, ltb→lt,
}
use snowglobe.Exec.{ok, err, request_unavailable}
use snowglobe.Broker.Records.{RequestRecord, Entries, pending, lookup, count_pending, evict_first}
use snowglobe.Broker.State.{Broker}
use snowglobe.Broker.Bodies.{make_room, draw_id}
use snowglobe.Broker.Invariant.{Distinct, Within, WellFormed, IsWellFormed}
use snowglobe.Broker.Eviction.{
  Evicts, evict_first-Evicts, length-Evicts, count_pending-Evicts, Evicts-WellFormed,
  count_pending-append, lookup-append-none,
}

abbrev pub Below : Option ℕ → ℕ → Type 0
Below none n = Unit
Below (some limit) n = n < limit

Below-of_Within : (l : Option ℕ) (n : ℕ) → Within l (suc n) → Below l n
Below-of_Within none n h = tt
Below-of_Within (some l) n h = h

Within-of_Below : (l : Option ℕ) (m n : ℕ) → m ≤ suc n → Below l n → Within l m
Within-of_Below none m n e h = tt
Within-of_Below (some l) m n e h = omega arith

-- What `_make_room` leaves: the records as they were, or without the oldest terminal one.
pub record MakesRoom (b : Broker) (es : Entries) : Type 0 where
  pub kept : (es ≡ b.records) ⊎ Evicts b.records es
  pub well_formed : WellFormed b.maximum_pending_requests b.maximum_requests es
  pub same_pending : count_pending es ≡ count_pending b.records
  pub room : Below b.maximum_requests (length es)

make_room_by :
    (b : Broker) (l : Option ℕ)
    → b.maximum_requests ≡ l
    → IsWellFormed b
    → (make_room b ≡ (err request_unavailable, b))
      ⊎ ((es : Entries) × (make_room b ≡ (ok tt, record b { records = es })) × MakesRoom b es)
unfolding make_room
make_room_by b none e w = inr (
  b.records,
  ground arith,
  record { kept = inl refl; well_formed = w; same_pending = refl; room = rw e tt },
)
make_room_by b (some l) e w = elim (Bool-cases (ltb (length b.records) l)) [
  | inl fits ↦ inr (
    b.records,
    ground arith,
    record { kept = inl refl; well_formed = w; same_pending = refl; room = rw e (ltb→lt _ _ fits) },
  )
  | inr full ↦ elim (Option-cases (evict_first b.records)) [
    | inl x ↦ inl (ground arith)
    | inr (es, x) ↦
        let v : Evicts b.records es = evict_first-Evicts b.records es x in
        inr (
          es,
          ground arith,
          record {
            kept = inr v;
            well_formed = Evicts-WellFormed b.records es v _ _ w;
            same_pending = count_pending-Evicts b.records es v;
            room =
                Below-of_Within b.maximum_requests (length es)
                  (rw (← length-Evicts b.records es v) w.few_requests);
          },
        )
  ]
]

pub make_room_cases :
    (b : Broker)
    → IsWellFormed b
    → (make_room b ≡ (err request_unavailable, b))
      ⊎ ((es : Entries) × (make_room b ≡ (ok tt, record b { records = es })) × MakesRoom b es)
make_room_cases b w = make_room_by b b.maximum_requests refl w

pub draw_id-fresh :
    (token : ℕ → String) (fuel : ℕ) (es : Entries) (n m : ℕ) (k : String)
    → draw_id token fuel es n ≡ some (k, m)
    → lookup k es ≡ none
unfolding draw_id
draw_id-fresh token zero es n m k h = cc
draw_id-fresh token (suc fuel) es n m k h = elim (Option-cases (lookup (token n) es)) [
  | inl e ↦ ground arith
  | inr (r, e) ↦ draw_id-fresh token fuel es (suc n) m k (ground arith)
]

-- The id is a token that has just been drawn.
pub draw_id-token :
    (token : ℕ → String) (fuel : ℕ) (es : Entries) (n m : ℕ) (k : String)
    → draw_id token fuel es n ≡ some (k, m)
    → (i : ℕ) × (n ≤ i) × (i < m) × (k ≡ token i)
unfolding draw_id
draw_id-token token zero es n m k h = cc
draw_id-token token (suc fuel) es n m k h = elim (Option-cases (lookup (token n) es)) [
  | inl e ↦ (n, ground arith, ground arith, ground arith)
  | inr (r, e) ↦
      let (i, low, high, eq) = draw_id-token token fuel es (suc n) m k (ground arith) in
      (i, omega arith, high, eq)
]

Distinct-add :
    (es : Entries) (k : String) (r : RequestRecord)
    → Distinct es
    → lookup k es ≡ none
    → Distinct (es ++ (k, r) ∷ [])
unfolding lookup
Distinct-add [] k r h e = (refl, tt)
Distinct-add ((j, s) ∷ es) k r h e = (
  ground (arith, lookup-append-none j es ((k, r) ∷ []), str_eq_iff j k, str_eq_iff k j),
  Distinct-add es k r h.1 (ground arith),
)

-- Adding a request that is pending and holds nothing, under a new key.
pub WellFormed-add :
    (waiting requests : Option ℕ) (es : Entries) (r : RequestRecord)
    → WellFormed waiting requests es
    → r.status ≡ pending
    → r.source ≡ none
    → lookup r.request_id es ≡ none
    → Below waiting (count_pending es)
    → Below requests (length es)
    → WellFormed waiting requests (es ++ (r.request_id, r) ∷ [])
unfolding count_pending
WellFormed-add waiting requests es r w p s fresh few room = record {
  keyed = All-append _ es _ w.keyed (refl, tt);
  consistent = All-append _ es _ w.consistent (rw p s, tt);
  distinct = Distinct-add es r.request_id r w.distinct fresh;
  few_pending =
      Within-of_Below waiting _ _ (ground (arith, count_pending-append es ((r.request_id, r) ∷ [])))
        few;
  few_requests =
      Within-of_Below requests _ _ (omega (arith, length-append es ((r.request_id, r) ∷ []))) room;
}
