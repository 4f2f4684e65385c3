-- ===== src/Broker/Revocation.antt =====
-- A request that was cancelled, failed or expired never gives out a result again.
use snowglobe.Prelude.{
  ℕ, ◌≤◌, String, ◌≡◌, ◌≢◌, refl, sym, ◌∙◌, true, false, Option, none, some, List, [], ◌∷◌, arith,
  All, All-append, inl, inr, str_eq, str_eq_iff, Bool-cases,
}
use snowglobe.Exec.{Result, ok, err, ◌>>=◌, Result-cases}
use snowglobe.Broker.Records.{
  RequestStatus, RequestRecord, RequestView, Entries, CursorRef, SourceRef, cancelled, failed,
  expired, is_live, lookup,
}
use snowglobe.Broker.State.{Broker, Environment, locked_record}
use snowglobe.Broker.Bodies.{cancel_live, close_cancelled, write_record}
use snowglobe.Broker.Methods.{open_source, cancel, submit}
use snowglobe.Broker.Lifecycle.{EvolvesAll, may_become, lookup-put_record_self}
use snowglobe.Broker.Progress.{
  Progress, after_expiry, after_expiry-Progress, locked_record-Ran, Ran-lookup,
  cancel_optional-records, cancel_each-draws, cancel_each-records,
}
use snowglobe.Broker.Changes.{cancel-Progress}
use snowglobe.Broker.Invariant.{IsWellFormed, Distinct, Progress-IsWellFormed}
use snowglobe.Python.{ℤ}
use snowglobe.Broker.Eviction.{Evicts, All-drop}
use snowglobe.Broker.Admission.{Outcome}
use snowglobe.Broker.Submit.{submit_cases}
use snowglobe.Broker.History.{Call, submits, step, run, step-Progress, step-IsWellFormed}
use snowglobe.Broker.Access.{open_source-Available}

-- Whatever record stands under the key, it is in a terminal state.
abbrev pub ClosedEntries : String → Entries → Type 0
ClosedEntries k es = All (λ e. e.0 ≡ k → is_live e.1.status ≡ false) es

abbrev pub IsClosed : String → Broker → Type 0
IsClosed k b = ClosedEntries k b.records

live_before : (s t : RequestStatus) → may_become s t ≡ true → is_live s ≡ false → is_live t ≡ false
unfolding is_live
live_before s t h k = ground arith

EvolvesAll-ClosedEntries :
    (k : String) (es fs : Entries) → EvolvesAll es fs → ClosedEntries k es → ClosedEntries k fs
EvolvesAll-ClosedEntries k [] [] h c = tt
EvolvesAll-ClosedEntries k ((i, r) ∷ es) ((j, s) ∷ fs) h c = (
  λ e. live_before r.status s.status h.1.lawful (c.0 (sym h.0 ∙ e)),
  EvolvesAll-ClosedEntries k es fs h.2 c.1,
)
EvolvesAll-ClosedEntries k [] (_ ∷ _) h c = absurd h
EvolvesAll-ClosedEntries k (_ ∷ _) [] h c = absurd h

Evicts-ClosedEntries :
    (k : String) (es fs : Entries) → Evicts es fs → ClosedEntries k es → ClosedEntries k fs
Evicts-ClosedEntries k es fs v c = rw v.rest (All-drop _ v.before v.after v.entry (rw v.split at c))

ClosedEntries-lookup :
    (k : String) (es : Entries) (r : RequestRecord)
    → ClosedEntries k es
    → lookup k es ≡ some r
    → is_live r.status ≡ false
unfolding lookup
ClosedEntries-lookup k [] r c h = cc
ClosedEntries-lookup k ((j, s) ∷ es) r c h =
    ground (arith, ClosedEntries-lookup k es r c.1, str_eq_iff j k, c.0)

absent-ClosedEntries : (k : String) (es : Entries) → lookup k es ≡ none → ClosedEntries k es
unfolding lookup
absent-ClosedEntries k [] h = tt
absent-ClosedEntries k ((j, s) ∷ es) h =
    (λ e. ground (arith, str_eq_iff j k), absent-ClosedEntries k es (ground arith))

-- Where keys stand once, the record that is found is the only one.
ClosedEntries-of_found :
    (k : String) (es : Entries) (r : RequestRecord)
    → Distinct es
    → lookup k es ≡ some r
    → is_live r.status ≡ false
    → ClosedEntries k es
unfolding lookup
ClosedEntries-of_found k [] r d h l = tt
ClosedEntries-of_found k ((j, s) ∷ es) r d h l = elim (Bool-cases (str_eq j k)) [
  | inl same ↦
      let e : j ≡ k = (str_eq_iff j k).0 same in
      (λ _. ground arith, absent-ClosedEntries k es (rw e at d.0))
  | inr other ↦ (
    λ e. absurd (ground (arith, str_eq_iff j k)),
    ClosedEntries-of_found k es r d.1 (rw other at h) l,
  )
]

-- The ids that are still to be drawn are not `k`.
abbrev pub NeverDrawn : Environment → String → ℕ → Type 0
NeverDrawn env k n = (i : ℕ) → n ≤ i → env.token i ≢ k

pub record Final (env : Environment) (k : String) (b : Broker) : Type 0 where
  pub well_formed : IsWellFormed b
  pub closed : IsClosed k b
  pub never_drawn : NeverDrawn env k b.draws

cancel_live-closes :
    (k : String) (r : RequestRecord) (b : Broker) (a : RequestView × Option CursorRef)
    → lookup k b.records ≡ some r
    → (cancel_live k r b).0 ≡ ok a
    → (r' : RequestRecord) × (lookup k (cancel_live k r b).1.records ≡ some r')
      × (is_live r'.status ≡ false)
unfolding cancel_live is_live close_cancelled write_record
cancel_live-closes k r b a found h = by_status r.status refl
  where
    by_status :
        (s : RequestStatus)
        → r.status ≡ s
        → (r' : RequestRecord) × (lookup k (cancel_live k r b).1.records ≡ some r')
          × (is_live r'.status ≡ false)
    by_status failed e = (r, ground arith, ground arith)
    by_status cancelled e = (r, ground arith, ground arith)
    by_status expired e = absurd (ground arith)
    by_status _ e = (
      record r { status = cancelled; source = none; cursor = none },
      ground (
        arith,
        lookup-put_record_self k r (record r { status = cancelled; source = none; cursor = none })
            b.records,
      ),
      ground arith,
    )

module _ (env : Environment) (k : String) where
  Outcome-Final :
      (ttl : ℕ) (b : Broker) (r : Result RequestView) (b' : Broker)
      → Outcome env ttl b (r, b')
      → IsClosed k b
      → NeverDrawn env k b.draws
      → IsClosed k b' × NeverDrawn env k b'.draws
  Outcome-Final ttl b (err x) b' o c n = (
    elim o.retained [ inl e ↦ rw e c | inr v ↦ Evicts-ClosedEntries k b.records b'.records v c ],
    λ i low. n i (omega (arith, o.draws_grow)),
  )
  Outcome-Final ttl b (ok v) b' o c n =
      let (j, low, high, drawn) = o.drawn in
      let kept : ClosedEntries k o.kept = elim o.retained [
        | inl e ↦ rw e c
        | inr x ↦ Evicts-ClosedEntries k b.records o.kept x c
      ] in
      (
        rw o.added (All-append _ o.kept _ kept (λ e. absurd (n j low (sym drawn ∙ e)), tt)),
        λ i l. n i (omega arith),
      )

  Progress-Final :
      (b b' : Broker) → Progress b b' → IsWellFormed b' → Final env k b → Final env k b'
  Progress-Final b b' p w f = record {
    well_formed = w;
    closed = EvolvesAll-ClosedEntries k b.records b'.records p.evolved f.closed;
    never_drawn = rw p.same_draws f.never_drawn;
  }

  submit-Final :
      (z : ℤ) (b : Broker)
      → Final env k b
      → IsWellFormed (submit env z b).1
      → Final env k (submit env z b).1
  submit-Final z b f w = elim (submit_cases env b f.well_formed z) [
    | inl (x, p, e) ↦ rw e f
    | inr (ttl, p, s) ↦
        let q : Progress b (after_expiry env b) = after_expiry-Progress env b in
        let (c, n) =
          Outcome-Final ttl (after_expiry env b) s.result s.state s.outcome
            (EvolvesAll-ClosedEntries k b.records (after_expiry env b).records q.evolved f.closed)
            (rw q.same_draws f.never_drawn) in
        record {
          well_formed = w;
          closed = rw (s.eq, cancel_each-records s.cursors s.state) c;
          never_drawn = rw (s.eq, cancel_each-draws s.cursors s.state) n;
        }
  ]

  step-Final : (c : Call) (b : Broker) → Final env k b → Final env k (step env c b)
  unfolding step
  step-Final (submits z) b f =
      submit-Final z b f (step-IsWellFormed env (submits z) b f.well_formed)
  step-Final c b f =
      Progress-Final b (step env c b) (step-Progress env c b (λ h. h))
        (step-IsWellFormed env c b f.well_formed) f

  run-Final : (cs : List Call) (b : Broker) → Final env k b → Final env k (run env cs b)
  unfolding run
  run-Final [] b f = f
  run-Final (c ∷ cs) b f = run-Final cs (step env c b) (step-Final c b f)

  -- Once every record under the key is closed and the id is drawn no more, no history of calls makes
  -- a result readable under it.
  pub run-Final-unreadable :
      (cs : List Call) (b : Broker) (s : SourceRef)
      → Final env k b
      → (open_source env k (run env cs b)).0 ≢ ok s
  run-Final-unreadable cs b s f h =
      let a = (open_source-Available env k (run env cs b) s).0 h in
      let e = ClosedEntries-lookup k _ a.request (run-Final cs b f).closed a.found in
      unfold is_live in cc (e, a.is_complete)

  cancel-closes :
      (b : Broker) (v : RequestView)
      → (cancel env k b).0 ≡ ok v
      → (r : RequestRecord) × (lookup k (cancel env k b).1.records ≡ some r)
        × (is_live r.status ≡ false)
  unfolding cancel ◌>>=◌
  cancel-closes b v h = elim (Result-cases (locked_record env k (cancel_live k) b).0) [
    | inr (x, e) ↦ absurd (cc (rw e at h))
    | inl ((v', c), e) ↦
        let ran = locked_record-Ran env k (cancel_live k) b (v', c) e in
        let (r, found, dead) =
          cancel_live-closes k ran.request ran.state (v', c)
            (Ran-lookup env k (cancel_live k) b (v', c) ran) ran.returned in
        (r, rw (e, ran.result, cancel_optional-records, cancel_optional-records) found, dead)
  ]

  -- After a `cancel` that reported success, no later history of calls, by whatever interleaving,
  -- makes a result readable under the request's id, if the id is not drawn a second time.
  pub cancel_is_final :
      (b : Broker) (v : RequestView) (cs : List Call) (s : SourceRef)
      → IsWellFormed b
      → NeverDrawn env k b.draws
      → (cancel env k b).0 ≡ ok v
      → (open_source env k (run env cs (cancel env k b).1)).0 ≢ ok s
  cancel_is_final b v cs s w n h =
      let p : Progress b (cancel env k b).1 = cancel-Progress env k b in
      let w' = Progress-IsWellFormed b (cancel env k b).1 p w in
      let (r, found, dead) = cancel-closes b v h in
      run-Final-unreadable cs (cancel env k b).1 s (record {
        well_formed = w';
        closed = ClosedEntries-of_found k _ r w'.distinct found dead;
        never_drawn = rw p.same_draws n;
      })
