-- ===== src/Broker/Admission.antt =====
-- What `submit` does to the records, on every path.
use snowglobe.Prelude.{
  ℕ, ◌+◌, ◌≤◌, ◌<◌, String, ◌≡◌, ◌⊎◌, refl, true, false, Option, none, some, [], ◌∷◌, ◌++◌, arith,
  Bool-cases, Option-cases, inl, inr, min,
}
use snowglobe.Exec.{Result, ok, err, Result-cases}
use snowglobe.Python.{add_timedelta, add_timedelta-eq-add}
use snowglobe.Broker.Records.{RequestRecord, RequestView, Entries, pending, lookup, count_pending}
use snowglobe.Broker.State.{Broker, Environment, now, reading_instant}
use snowglobe.Broker.Bodies.{at_pending_capacity, draw_id}
use snowglobe.Broker.Methods.{new_request_id, register_pending, admit_pending}
use snowglobe.Broker.Invariant.{IsWellFormed}
use snowglobe.Broker.Eviction.{Evicts}
use snowglobe.Broker.Submission.{
  Below, MakesRoom, make_room_cases, draw_id-fresh, draw_id-token, WellFormed-add,
}

-- The record of a request that has just been submitted.
abbrev pub new_record : RequestView → RequestRecord
new_record v = record {
  request_id = v.request_id;
  status = v.status;
  expires_at = v.expires_at;
  source = none;
  cursor = none;
}

-- The limits of the broker are as they were.
abbrev pub SameLimits : Broker → Broker → Type 0
SameLimits b b' =
    (b'.maximum_ttl ≡ b.maximum_ttl)
    × (b'.maximum_pending_requests ≡ b.maximum_pending_requests)
    × (b'.maximum_requests ≡ b.maximum_requests)

-- A refusal of the body of `submit`: the records may have lost the oldest terminal one.
pub record Refused (b b' : Broker) : Type 0 where
  pub retained : (b'.records ≡ b.records) ⊎ Evicts b.records b'.records
  pub well_formed : IsWellFormed b'
  pub draws_grow : b.draws ≤ b'.draws
  pub same_limits : SameLimits b b'

-- A success of the body of `submit`.
pub record Admitted (env : Environment) (ttl : ℕ) (b : Broker) (v : RequestView) (b' : Broker)
    : Type 0 where
  pub kept : Entries
  pub retained : (kept ≡ b.records) ⊎ Evicts b.records kept
  pub fresh : lookup v.request_id kept ≡ none
  pub is_pending : v.status ≡ pending
  pub aware : (env.clock b.reads).is_aware ≡ true
  pub expiry : v.expires_at ≡ (env.clock b.reads).instant + min ttl b.maximum_ttl
  pub few_pending : Below b.maximum_pending_requests (count_pending b.records)
  pub added : b'.records ≡ kept ++ (v.request_id, new_record v) ∷ []
  pub well_formed : IsWellFormed b'
  pub same_limits : SameLimits b b'
  pub drawn : (i : ℕ) × (b.draws ≤ i) × (i < b'.draws) × (v.request_id ≡ env.token i)

abbrev pub Outcome : Environment → ℕ → Broker → Result RequestView × Broker → Type 0
Outcome env ttl b (ok v, b') = Admitted env ttl b v b'
Outcome env ttl b (err x, b') = Refused b b'

not_full :
    (l : Option ℕ) (b : Broker)
    → b.maximum_pending_requests ≡ l
    → at_pending_capacity b ≡ false
    → Below l (count_pending b.records)
unfolding at_pending_capacity
not_full none b e h = tt
not_full (some l) b e h = ground arith

module _ (env : Environment) (ttl : ℕ) (b : Broker) where
  module _ (es : Entries) (m : MakesRoom b es) where
    Refused-here :
        (b' : Broker)
        → b'.records ≡ es
        → b'.maximum_ttl ≡ b.maximum_ttl
        → b'.maximum_pending_requests ≡ b.maximum_pending_requests
        → b'.maximum_requests ≡ b.maximum_requests
        → b.draws ≤ b'.draws
        → Refused b b'
    Refused-here b' p t q r d = record {
      retained = rw p m.kept;
      well_formed = rw (p, q, r) m.well_formed;
      draws_grow = d;
      same_limits = (t, q, r);
    }

    later :
        (k : String) (n : ℕ)
        → draw_id env.token env.draw_limit es b.draws ≡ some (k, n)
        → b.draws ≤ n
    later k n e =
        let (i, low, high, _) = draw_id-token env.token env.draw_limit es b.draws n k e in
        omega arith

    register_pending-Outcome :
        Below b.maximum_pending_requests (count_pending b.records)
        → Outcome env ttl b (register_pending env ttl (record b { records = es }))
    unfolding register_pending new_request_id now reading_instant
    register_pending-Outcome few =
        elim (Option-cases (draw_id env.token env.draw_limit es b.draws)) [
          | inl e ↦
              rw (e, register_pending, new_request_id)
                (Refused-here _ refl refl refl refl (omega arith))
          | inr ((k, n), e) ↦ elim (Bool-cases (env.clock b.reads).is_aware) [
            | inr naive ↦
                rw (e, register_pending, new_request_id, naive)
                  (Refused-here _ refl refl refl refl (later k n e))
            | inl aware ↦
                elim (Result-cases
                  (add_timedelta (env.clock b.reads).instant (min ttl b.maximum_ttl))) [
                    | inr (x, late) ↦
                        rw (e, register_pending, new_request_id, aware, late)
                          (Refused-here _ refl refl refl refl (later k n e))
                    | inl (t, sum) ↦
                        rw (e, register_pending, new_request_id, aware, sum)
                          (record {
                            kept = es;
                            retained = m.kept;
                            fresh = draw_id-fresh env.token env.draw_limit es b.draws n k e;
                            is_pending = refl;
                            aware = aware;
                            expiry = add_timedelta-eq-add _ _ t sum;
                            few_pending = few;
                            added = refl;
                            same_limits = (refl, refl, refl);
                            well_formed =
                                WellFormed-add _ _ es _ m.well_formed refl refl
                                  (draw_id-fresh env.token env.draw_limit es b.draws n k e)
                                  (rw m.same_pending few) m.room;
                            drawn = draw_id-token env.token env.draw_limit es b.draws n k e;
                          })
                  ]
          ]
        ]

  pub admit_pending-Outcome : IsWellFormed b → Outcome env ttl b (admit_pending env ttl b)
  unfolding admit_pending
  admit_pending-Outcome w = elim (Bool-cases (at_pending_capacity b)) [
    | inl full ↦
        rw (full, admit_pending)
          (record {
            retained = inl refl;
            well_formed = w;
            draws_grow = omega arith;
            same_limits = (refl, refl, refl);
          })
    | inr open' ↦ elim (make_room_cases b w) [
      | inl e ↦
          rw (open', admit_pending, e)
            (record {
              retained = inl refl;
              well_formed = w;
              draws_grow = omega arith;
              same_limits = (refl, refl, refl);
            })
      | inr (es, e, m) ↦
          rw (open', admit_pending, e)
            (register_pending-Outcome es m (not_full b.maximum_pending_requests b refl open'))
    ]
  ]
