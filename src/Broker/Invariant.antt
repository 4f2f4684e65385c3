-- ===== src/Broker/Invariant.antt =====
-- The well-formedness of the broker's records.
use snowglobe.Prelude.{
  ℕ, ◌≤◌, String, ◌≡◌, refl, true, Option, none, some, List, [], ◌∷◌, arith, All, length,
}
use snowglobe.Broker.Records.{RequestStatus, Entries, CursorRef, is_pending, lookup, count_pending}
use snowglobe.Broker.State.{Broker, cancel_each}
use snowglobe.Broker.Lifecycle.{EvolvesAll, IsConsistent, may_become}
use snowglobe.Broker.Progress.{Progress}

-- No key stands twice.
abbrev pub Distinct : Entries → Type 0
Distinct [] = Unit
Distinct ((k, r) ∷ es) = (lookup k es ≡ none) × Distinct es

abbrev pub Within : Option ℕ → ℕ → Type 0
Within none n = Unit
Within (some limit) n = n ≤ limit

pub record WellFormed (waiting requests : Option ℕ) (es : Entries) : Type 0 where
  pub keyed : All (λ e. e.1.request_id ≡ e.0) es
  pub consistent : All (λ e. IsConsistent e.1) es
  pub distinct : Distinct es
  pub few_pending : Within waiting (count_pending es)
  pub few_requests : Within requests (length es)

abbrev pub IsWellFormed : Broker → Type 0
IsWellFormed b = WellFormed b.maximum_pending_requests b.maximum_requests b.records

EvolvesAll-keyed :
    (es fs : Entries)
    → EvolvesAll es fs
    → All (λ e. e.1.request_id ≡ e.0) es
    → All (λ e. e.1.request_id ≡ e.0) fs
EvolvesAll-keyed [] [] h k = tt
EvolvesAll-keyed ((i, r) ∷ es) ((j, s) ∷ fs) h k =
    (cc (h.0, h.1.same_id, k.0), EvolvesAll-keyed es fs h.2 k.1)
EvolvesAll-keyed [] (_ ∷ _) h k = absurd h
EvolvesAll-keyed (_ ∷ _) [] h k = absurd h

EvolvesAll-IsConsistent :
    (es fs : Entries)
    → EvolvesAll es fs
    → All (λ e. IsConsistent e.1) es
    → All (λ e. IsConsistent e.1) fs
EvolvesAll-IsConsistent [] [] h k = tt
EvolvesAll-IsConsistent ((i, r) ∷ es) ((j, s) ∷ fs) h k =
    (h.1.consistent k.0, EvolvesAll-IsConsistent es fs h.2 k.1)
EvolvesAll-IsConsistent [] (_ ∷ _) h k = absurd h
EvolvesAll-IsConsistent (_ ∷ _) [] h k = absurd h

pub EvolvesAll-lookup-none :
    (i : String) (es fs : Entries) → EvolvesAll es fs → lookup i es ≡ none → lookup i fs ≡ none
unfolding lookup
EvolvesAll-lookup-none i [] [] h k = refl
EvolvesAll-lookup-none i ((j, r) ∷ es) ((l, s) ∷ fs) h k =
    ground (arith, EvolvesAll-lookup-none i es fs h.2)
EvolvesAll-lookup-none i [] (_ ∷ _) h k = absurd h
EvolvesAll-lookup-none i (_ ∷ _) [] h k = absurd h

EvolvesAll-Distinct : (es fs : Entries) → EvolvesAll es fs → Distinct es → Distinct fs
EvolvesAll-Distinct [] [] h k = tt
EvolvesAll-Distinct ((i, r) ∷ es) ((j, s) ∷ fs) h k =
    (rw h.0 (EvolvesAll-lookup-none i es fs h.2 k.0), EvolvesAll-Distinct es fs h.2 k.1)
EvolvesAll-Distinct [] (_ ∷ _) h k = absurd h
EvolvesAll-Distinct (_ ∷ _) [] h k = absurd h

-- No request becomes pending again.
pending_before :
    (s t : RequestStatus) → may_become s t ≡ true → is_pending t ≡ true → is_pending s ≡ true
unfolding is_pending
pending_before s t h k = ground arith

pub count_pending-EvolvesAll :
    (es fs : Entries) → EvolvesAll es fs → count_pending fs ≤ count_pending es
unfolding count_pending
count_pending-EvolvesAll [] [] h = omega arith
count_pending-EvolvesAll ((i, r) ∷ es) ((j, s) ∷ fs) h =
    ground (arith, pending_before r.status s.status h.1.lawful, count_pending-EvolvesAll es fs h.2)
count_pending-EvolvesAll [] (_ ∷ _) h = absurd h
count_pending-EvolvesAll (_ ∷ _) [] h = absurd h

pub length-EvolvesAll : (es fs : Entries) → EvolvesAll es fs → length fs ≡ length es
length-EvolvesAll [] [] h = refl
length-EvolvesAll ((i, r) ∷ es) ((j, s) ∷ fs) h = omega (arith, length-EvolvesAll es fs h.2)
length-EvolvesAll [] (_ ∷ _) h = absurd h
length-EvolvesAll (_ ∷ _) [] h = absurd h

pub Within-mono : (l : Option ℕ) (m n : ℕ) → m ≤ n → Within l n → Within l m
Within-mono none m n h k = tt
Within-mono (some l) m n h k = omega arith

pub EvolvesAll-WellFormed :
    (waiting requests : Option ℕ) (es fs : Entries)
    → EvolvesAll es fs
    → WellFormed waiting requests es
    → WellFormed waiting requests fs
EvolvesAll-WellFormed waiting requests es fs h w = record {
  keyed = EvolvesAll-keyed es fs h w.keyed;
  consistent = EvolvesAll-IsConsistent es fs h w.consistent;
  distinct = EvolvesAll-Distinct es fs h w.distinct;
  few_pending = Within-mono waiting _ _ (count_pending-EvolvesAll es fs h) w.few_pending;
  few_requests = rw (length-EvolvesAll es fs h) w.few_requests;
}

pub Progress-IsWellFormed : (b b' : Broker) → Progress b b' → IsWellFormed b → IsWellFormed b'
Progress-IsWellFormed b b' p w =
    rw (p.same_pending, p.same_requests)
      (EvolvesAll-WellFormed b.maximum_pending_requests b.maximum_requests b.records b'.records
        p.evolved w)

pub cancel_each-IsWellFormed :
    (cs : List CursorRef) (b : Broker) → IsWellFormed b → IsWellFormed (cancel_each cs b)
unfolding cancel_each
cancel_each-IsWellFormed [] b w = w
cancel_each-IsWellFormed (c ∷ cs) b w = cancel_each-IsWellFormed cs _ w
