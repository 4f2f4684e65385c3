-- ===== src/Broker/Eviction.antt =====
-- The loop of `_make_room`: which request is evicted, and what that keeps.
use snowglobe.Prelude.{
  ℕ, suc, ◌+◌, String, ◌≡◌, refl, subst, true, false, Option, none, some, [], ◌∷◌, ◌++◌, arith, All,
  length, length-append, Bool-cases, Option-cases, inl, inr,
}
use snowglobe.Broker.Records.{
  RequestStatus, pending, complete, failed, cancelled, expired, RequestRecord, Entries, is_pending,
  is_evictable, lookup, count_pending, evict_first,
}
use snowglobe.Broker.Invariant.{Distinct, Within-mono, WellFormed}

-- The states whose records may go.
abbrev pub IsTerminal : RequestStatus → Type 0
IsTerminal pending = ⊥
IsTerminal complete = ⊥
IsTerminal failed = Unit
IsTerminal cancelled = Unit
IsTerminal expired = Unit

is_evictable-IsTerminal : (s : RequestStatus) → is_evictable s ≡ true → IsTerminal s
unfolding is_evictable
is_evictable-IsTerminal pending h = absurd (cc h)
is_evictable-IsTerminal complete h = absurd (cc h)
is_evictable-IsTerminal failed h = tt
is_evictable-IsTerminal cancelled h = tt
is_evictable-IsTerminal expired h = tt

IsTerminal-is_evictable : (s : RequestStatus) → is_evictable s ≡ false → ¬ IsTerminal s
unfolding is_evictable
IsTerminal-is_evictable pending h t = t
IsTerminal-is_evictable complete h t = t
IsTerminal-is_evictable failed h t = cc h
IsTerminal-is_evictable cancelled h t = cc h
IsTerminal-is_evictable expired h t = cc h

-- The entry that is evicted is the oldest terminal one, and nothing else changes.
pub record Evicts (es fs : Entries) : Type 0 where
  pub before : Entries
  pub entry : String × RequestRecord
  pub after : Entries
  pub split : es ≡ before ++ entry ∷ after
  pub rest : fs ≡ before ++ after
  pub terminal : IsTerminal entry.1.status
  pub oldest : All (λ e. ¬ IsTerminal e.1.status) before

pub Evicts-cons :
    (e : String × RequestRecord) (es fs : Entries)
    → ¬ IsTerminal e.1.status
    → Evicts es fs
    → Evicts (e ∷ es) (e ∷ fs)
Evicts-cons e es fs h v = record {
  before = e ∷ v.before;
  entry = v.entry;
  after = v.after;
  split = cc v.split;
  rest = cc v.rest;
  terminal = v.terminal;
  oldest = (h, v.oldest);
}

pub evict_first-Evicts : (es fs : Entries) → evict_first es ≡ some fs → Evicts es fs
unfolding evict_first
evict_first-Evicts [] fs h = cc
evict_first-Evicts ((k, r) ∷ es) fs h = elim (Bool-cases (is_evictable r.status)) [
  | inl yes' ↦ record {
    before = [];
    entry = (k, r);
    after = es;
    split = refl;
    rest = ground arith;
    terminal = is_evictable-IsTerminal r.status yes';
    oldest = tt;
  }
  | inr no' ↦ elim (Option-cases (evict_first es)) [
    | inl e ↦ absurd (ground arith)
    | inr (gs, e) ↦
        subst (λ x. Evicts ((k, r) ∷ es) x) (ground arith)
          (Evicts-cons (k, r) es gs (IsTerminal-is_evictable r.status no')
            (evict_first-Evicts es gs e))
  ]
]

pub evict_first-none :
    (es : Entries) → evict_first es ≡ none → All (λ e. is_evictable e.1.status ≡ false) es
unfolding evict_first
evict_first-none [] h = tt
evict_first-none ((k, r) ∷ es) h = ground (arith, evict_first-none es)

pub count_pending-append :
    (es fs : Entries) → count_pending (es ++ fs) ≡ count_pending es + count_pending fs
unfolding count_pending
count_pending-append [] fs = omega arith
count_pending-append ((k, r) ∷ es) fs = omega (arith, count_pending-append es fs)

pub lookup-append-none :
    (k : String) (es fs : Entries) → lookup k es ≡ none → lookup k (es ++ fs) ≡ lookup k fs
unfolding lookup
lookup-append-none k [] fs h = refl
lookup-append-none k ((j, r) ∷ es) fs h = ground (arith, lookup-append-none k es fs)

lookup-drop :
    (k : String) (es fs : Entries) (e : String × RequestRecord)
    → lookup k (es ++ e ∷ fs) ≡ none
    → lookup k (es ++ fs) ≡ none
unfolding lookup
lookup-drop k [] fs (j, r) h = ground arith
lookup-drop k ((j, r) ∷ es) fs e h = ground (arith, lookup-drop k es fs e)

pub All-drop :
    (P : String × RequestRecord → Type 0) (es fs : Entries) (e : String × RequestRecord)
    → All P (es ++ e ∷ fs)
    → All P (es ++ fs)
All-drop P [] fs e h = h.1
All-drop P (x ∷ es) fs e h = (h.0, All-drop P es fs e h.1)

Distinct-drop :
    (es fs : Entries) (e : String × RequestRecord) → Distinct (es ++ e ∷ fs) → Distinct (es ++ fs)
Distinct-drop [] fs e h = h.1
Distinct-drop ((k, r) ∷ es) fs e h = (lookup-drop k es fs e h.0, Distinct-drop es fs e h.1)

not_pending : (s : RequestStatus) → IsTerminal s → is_pending s ≡ false
unfolding is_pending
not_pending pending h = absurd h
not_pending complete h = absurd h
not_pending failed h = refl
not_pending cancelled h = refl
not_pending expired h = refl

module _ (es fs : Entries) (v : Evicts es fs) where
  pub length-Evicts : length es ≡ suc (length fs)
  length-Evicts =
      rw (v.split, v.rest)
        (omega (arith, length-append v.before (v.entry ∷ v.after), length-append v.before v.after))

  pub count_pending-Evicts : count_pending fs ≡ count_pending es
  unfolding count_pending
  count_pending-Evicts =
      rw (v.split, v.rest)
        (ground (
          arith,
          count_pending-append v.before (v.entry ∷ v.after),
          count_pending-append v.before v.after,
          not_pending v.entry.1.status v.terminal,
        ))

  pub Evicts-WellFormed :
      (waiting requests : Option ℕ)
      → WellFormed waiting requests es
      → WellFormed waiting requests fs
  Evicts-WellFormed waiting requests w = record {
    keyed = rw v.rest (All-drop _ v.before v.after v.entry (rw v.split at w.keyed));
    consistent = rw v.rest (All-drop _ v.before v.after v.entry (rw v.split at w.consistent));
    distinct = rw v.rest (Distinct-drop v.before v.after v.entry (rw v.split at w.distinct));
    few_pending = rw count_pending-Evicts w.few_pending;
    few_requests = Within-mono requests _ _ (omega (arith, length-Evicts)) w.few_requests;
  }
