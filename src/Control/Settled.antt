-- ===== src/Control/Settled.antt =====
-- A run of the executor leaves no request behind that waits for it.
use snowglobe.Prelude.{
  ℕ, String, ◌≡◌, refl, true, false, Option, none, some, arith, Option-cases, Bool-cases, inl, inr,
}
use snowglobe.Exec.{Result, ok, err, Result-cases, Exec, suppress_unavailable, forgive_unavailable}
use snowglobe.Broker.Records.{
  RequestRecord, RequestView, SourceRef, CursorRef, is_pending, lookup, put_record, failed,
}
use snowglobe.Broker.State.{Broker, Environment, locked_record, expire}
use snowglobe.Broker.Bodies.{close_failed, complete_with}
use snowglobe.Broker.Methods.{fail, publish}
use snowglobe.Broker.Lifecycle.{lookup-put_record_self}
use snowglobe.Broker.Progress.{cancel_optional-records, locked_record-Ran, Ran-lookup}
use snowglobe.Broker.Publication.{complete_with-published}
use snowglobe.Broker.History.{run}
use snowglobe.Control.Executor.{
  Awaits, meanwhile, notice_expiry, wait_for_work, try_run, fail_after, run_ended, run_task,
}

-- No pending record stands under the id.
abbrev pub IsSettled : String → Broker → Type 0
IsSettled k b = (r : RequestRecord) → lookup k b.records ≡ some r → is_pending r.status ≡ false

IsSettled-none : (k : String) (b : Broker) → lookup k b.records ≡ none → IsSettled k b
IsSettled-none k b e r h = absurd (cc)

IsSettled-some :
    (k : String) (b : Broker) (r : RequestRecord)
    → lookup k b.records ≡ some r
    → is_pending r.status ≡ false
    → IsSettled k b
IsSettled-some k b r e p r' h = let same : r ≡ r' = cc in rw same at p

-- The body of a method settles the request that it is given.
abbrev pub Settles {ℓ} : {A : Type ℓ} → String → (RequestRecord → Exec Broker A) → Type 0
Settles k body =
    (r : RequestRecord) (b : Broker)
    → lookup k b.records ≡ some r
    → (forgive_unavailable (body r b).0 ≡ ok tt) × IsSettled k (body r b).1

close_failed-Settles : (k : String) → Settles k (close_failed k)
unfolding close_failed forgive_unavailable
close_failed-Settles k r b e = elim (Bool-cases (is_pending r.status)) [
  | inl p ↦
      let r' : RequestRecord = record r { cursor = none; status = failed } in
      let put = lookup-put_record_self k r r' b.records e in
      rw (p, close_failed)
        (refl, IsSettled-some k (record b { records = put_record k r' b.records }) r' put refl)
  | inr p ↦ rw (p, close_failed) (refl, IsSettled-some k b r e p)
]

module _ (env : Environment) (aware : (n : ℕ) → (env.clock n).is_aware ≡ true) where
  expire_returns :
      (r : RequestRecord) (n : ℕ) → (c : Option CursorRef) × ((expire env r n).0 ≡ ok c)
  expire_returns r n = elim (Result-cases (expire env r n).0) [
    | inl (c, e) ↦ (c, e)
    | inr (x, e) ↦ absurd (unfold expire in ground (arith, aware n))
  ]

  locked_record-IsSettled {ℓ} :
      {A : Type ℓ} (k : String) (body : RequestRecord → Exec Broker A) (b : Broker)
      → Settles k body
      → (forgive_unavailable (locked_record env k body b).0 ≡ ok tt)
        × IsSettled k (locked_record env k body b).1
  unfolding locked_record forgive_unavailable
  locked_record-IsSettled k body b settles = elim (Option-cases (lookup k b.records)) [
    | inl e ↦ rw (e, locked_record) (refl, IsSettled-none k b e)
    | inr (r, e) ↦
        let (c, f) = expire_returns r b.reads in
        let (x, r', n) = expire env r b.reads in
        let b' : Broker = record b { records = put_record k r' b.records; reads = n } in
        let (returns, settled) = settles r' b' (lookup-put_record_self k r r' b.records e) in
        rw (e, f, locked_record) (returns, λ s h. settled s (rw cancel_optional-records at h))
  ]

  fail-IsSettled :
      (k : String) (b : Broker)
      → (forgive_unavailable (fail env k b).0 ≡ ok tt) × IsSettled k (fail env k b).1
  unfolding fail forgive_unavailable
  fail-IsSettled k b =
      let (returns, settled) =
        locked_record-IsSettled k (close_failed k) b (close_failed-Settles k) in
      elim (Result-cases (locked_record env k (close_failed k) b).0) [
        | inl ((v, c), e) ↦ rw (e, fail) (refl, λ s h. settled s (rw cancel_optional-records at h))
        | inr (x, e) ↦ rw (e, fail) (rw e at returns, settled)
      ]

  publish-IsSettled :
      (k : String) (s : SourceRef) (b : Broker) (v : RequestView)
      → (publish env k s b).0 ≡ ok v
      → IsSettled k (publish env k s b).1
  unfolding publish
  publish-IsSettled k s b v h =
      let ran = locked_record-Ran env k (complete_with k s) b v h in
      let (r', found, done, holds, seen, was) =
        complete_with-published k s ran.request ran.state v
          (Ran-lookup env k (complete_with k s) b v ran) ran.returned in
      let over : is_pending r'.status ≡ false = unfold is_pending in rw done refl in
      IsSettled-some k (publish env k s b).1 r' (rw (ran.result, cancel_optional-records) found)
        over

  -- A `try` that ends well has ended with a publication.
  record Published (k : String) (v : RequestView) (b' : Broker) : Type 0 where
    source : SourceRef
    state : Broker
    returned : (publish env k source state).0 ≡ ok v
    last : b' ≡ (publish env k source state).1

  try_run-Published :
      (k : String) (w : Awaits) (o : Result SourceRef) (b : Broker) (v : RequestView)
      → (try_run env k w o b).0 ≡ ok v
      → Published k v (try_run env k w o b).1
  unfolding try_run wait_for_work meanwhile
  try_run-Published k w (err x) b v h =
      elim (Result-cases (notice_expiry env k w.expiry_first (run env w.before b)).0) [
        | inr (y, e) ↦ absurd (cc (rw (e, try_run) at h))
        | inl (u, e) ↦ absurd (cc (rw (e, try_run) at h))
      ]
  try_run-Published k w (ok s) b v h =
      let noticed = notice_expiry env k w.expiry_first (run env w.before b) in
      elim (Result-cases noticed.0) [
        | inr (x, e) ↦ absurd (cc (rw (e, try_run) at h))
        | inl (u, e) ↦ record {
          source = s;
          state = run env w.after (run env w.between noticed.1);
          returned = rw (e, try_run) at h;
          last = rw (e, try_run) refl;
        }
      ]

  -- With a clock that has a time zone, a run of the executor whose work ends returns, whatever the work returns or
  -- raises and whatever calls of the broker come between, and its request is then not pending.
  pub run_task-IsSettled :
      (k : String) (w : Awaits) (b : Broker) (o : Result SourceRef)
      → w.outcome ≡ some o
      → ((run_task env k w b).0 ≡ ok tt) × IsSettled k (run_task env k w b).1
  unfolding run_task run_ended fail_after suppress_unavailable
  run_task-IsSettled k w b o ended = elim (Result-cases (try_run env k w o b).0) [
    | inl (v, e) ↦
        let p = try_run-Published k w o b v e in
        rw (ended, run_task, e, run_ended)
          (refl, rw p.last (publish-IsSettled k p.source p.state v p.returned))
    | inr (x, e) ↦ rw (ended, run_task, e, run_ended) (fail-IsSettled k (try_run env k w o b).1)
  ]
