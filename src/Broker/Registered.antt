-- ===== src/Broker/Registered.antt =====
-- What a successful `submit` promises, and that it ends.
use snowglobe.Prelude.{
  ℕ, zero, suc, ◌+◌, ◌≤◌, ◌<◌, String, ◌≡◌, ◌≢◌, ◌⊎◌, ap, none, some, List, [], ◌∷◌, ◌++◌, arith,
  length, inl, inr, str_eq_iff, Bool-cases,
}
use snowglobe.Exec.{Result, ok, err, Error, still_running, Result-cases, ◌>>=◌}
use snowglobe.Python.{ℤ, pos, negsuc, require_positive, add_timedelta}
use snowglobe.Broker.Records.{RequestRecord, RequestView, Entries, CursorRef, pending, lookup}
use snowglobe.Broker.State.{
  Broker, Environment, now, expire, expire_all, expire_at, reading_instant, cancel_each,
  locked_records,
}
use snowglobe.Broker.Bodies.{at_pending_capacity}
use snowglobe.Broker.Methods.{submit, admit_pending, register_pending, new_request_id}
use snowglobe.Broker.Progress.{Progress, after_expiry, after_expiry-Progress, cancel_each-records}
use snowglobe.Broker.Invariant.{IsWellFormed, Progress-IsWellFormed, length-EvolvesAll}
use snowglobe.Broker.Eviction.{lookup-append-none, length-Evicts, Evicts}
use snowglobe.Broker.Submission.{make_room_cases}
use snowglobe.Broker.Drawing.{Differ, draw_id-total}
use snowglobe.Broker.Admission.{Admitted, Outcome, new_record}
use snowglobe.Broker.Submit.{submit_cases, submit-IsWellFormed}

-- The promise of `submit`.
pub record Registered (env : Environment) (b : Broker) (v : RequestView) (b' : Broker)
    : Type 0 where
  pub is_pending : v.status ≡ pending
  pub found : lookup v.request_id b'.records ≡ some (new_record v)
  pub read : ℕ
  pub soon : v.expires_at ≤ (env.clock read).instant + b.maximum_ttl
  pub well_formed : IsWellFormed b'

module _ (env : Environment) (b : Broker) (w : IsWellFormed b) (z : ℤ) where
  lookup-added :
      (k : String) (r : RequestRecord) (es : Entries)
      → lookup k es ≡ none
      → lookup k (es ++ (k, r) ∷ []) ≡ some r
  unfolding lookup
  lookup-added k r es h = ground (arith, lookup-append-none k es ((k, r) ∷ []), str_eq_iff k k)

  Admitted-Registered :
      (ttl : ℕ) (v : RequestView) (cs : List CursorRef) (b' : Broker)
      → Admitted env ttl (after_expiry env b) v b'
      → IsWellFormed (cancel_each cs b')
      → Registered env b v (cancel_each cs b')
  Admitted-Registered ttl v cs b' a w' = record {
    is_pending = a.is_pending;
    found =
        rw (cancel_each-records cs b', a.added)
          (lookup-added v.request_id (new_record v) a.kept a.fresh);
    read = (after_expiry env b).reads;
    soon = omega (arith, a.expiry, (after_expiry-Progress env b).same_ttl);
    well_formed = w';
  }

  by_result :
      (ttl : ℕ) (res : Result RequestView) (st : Broker) (cs : List CursorRef) (v : RequestView)
      → Outcome env ttl (after_expiry env b) (res, st)
      → submit env z b ≡ (res, cancel_each cs st)
      → (submit env z b).0 ≡ ok v
      → Registered env b v (submit env z b).1
  by_result ttl (err x) st cs v o e h =
      absurd (cc (h, ap (λ (t : Result RequestView × Broker). t.0) e))
  by_result ttl (ok u) st cs v o e h =
      let same : u ≡ v = cc (h, ap (λ (t : Result RequestView × Broker). t.0) e) in
      let w' : IsWellFormed (cancel_each cs st) = rw e at (submit-IsWellFormed env b w z) in
      rw (← same, e) (Admitted-Registered ttl u cs st o w')

  -- From a well-formed broker, a call of `submit` that returns has registered a pending request,
  -- under an id of its own, which expires no later than the longest time to live after a reading of
  -- the clock.
  pub submit-Registered :
      (v : RequestView) → (submit env z b).0 ≡ ok v → Registered env b v (submit env z b).1
  submit-Registered v h = elim (submit_cases env b w z) [
    | inl (x, p, e) ↦ absurd (cc (h, ap (λ (t : Result RequestView × Broker). t.0) e))
    | inr (ttl, p, s) ↦ by_result ttl s.result s.state s.cursors v s.outcome s.eq h
  ]

module _ (env : Environment) where
  register_pending_ends :
      (ttl : ℕ) (b : Broker)
      → Differ env.token b.draws env.draw_limit
      → length b.records < env.draw_limit
      → (register_pending env ttl b).0 ≢ err still_running
  unfolding register_pending new_request_id now reading_instant add_timedelta
  register_pending_ends ttl b differ few h =
      let (k, n, e) = draw_id-total env.token env.draw_limit b.records b.draws differ few in
      ground arith

  length_of_retained : (es fs : Entries) → (fs ≡ es) ⊎ Evicts es fs → length fs ≤ length es
  length_of_retained es fs (inl e) = rw e (omega arith)
  length_of_retained es fs (inr v) = omega (arith, length-Evicts es fs v)

  admit_pending_ends :
      (ttl : ℕ) (b : Broker)
      → IsWellFormed b
      → Differ env.token b.draws env.draw_limit
      → length b.records < env.draw_limit
      → (admit_pending env ttl b).0 ≢ err still_running
  unfolding admit_pending
  admit_pending_ends ttl b w differ few h = elim (Bool-cases (at_pending_capacity b)) [
    | inl full ↦ cc (rw (full, admit_pending) at h)
    | inr open' ↦ elim (make_room_cases b w) [
      | inl e ↦ cc (rw (open', admit_pending, e) at h)
      | inr (es, e, m) ↦
          register_pending_ends ttl (record b { records = es }) differ
            (omega (arith, length_of_retained b.records es m.kept))
            (rw (open', admit_pending, e) at h)
    ]
  ]

  expire_all-error : (es : Entries) (n : ℕ) → (expire_all env es n).0 ≢ err still_running
  unfolding expire_all expire expire_at reading_instant
  expire_all-error [] n h = cc
  expire_all-error ((k, r) ∷ es) n h =
      ground (arith, expire_all-error es n, expire_all-error es (suc n))

  error_eq :
      (x : Error) → ◌≡◌ {A = Result RequestView} (err x) (err still_running) → x ≡ still_running
  error_eq x h = cc

  under_lock_ends :
      (ttl : ℕ) (b : Broker)
      → IsWellFormed b
      → Differ env.token b.draws env.draw_limit
      → length b.records < env.draw_limit
      → (locked_records env (admit_pending env ttl) b).0 ≢ err still_running
  unfolding locked_records after_expiry
  under_lock_ends ttl b w differ few h =
      let p : Progress b (after_expiry env b) = after_expiry-Progress env b in
      elim (Result-cases (expire_all env b.records b.reads).0) [
        | inl (cs, e) ↦
            admit_pending_ends ttl (after_expiry env b)
              (Progress-IsWellFormed b (after_expiry env b) p w) differ
              (omega (arith, length-EvolvesAll b.records (after_expiry env b).records p.evolved))
              (rw (e, locked_records) at h)
        | inr (x, e) ↦
            expire_all-error b.records b.reads (rw (error_eq x (rw (e, locked_records) at h)) at e)
      ]

  -- From a well-formed broker, with leave to draw one more token than there are records, and if the tokens that
  -- this leave covers differ from each other, the loop that looks for a free id ends, whichever ids are taken:
  -- `submit` returns or raises.
  pub submit_ends :
      (z : ℤ) (b : Broker)
      → IsWellFormed b
      → Differ env.token b.draws env.draw_limit
      → length b.records < env.draw_limit
      → (submit env z b).0 ≢ err still_running
  unfolding submit require_positive ◌>>=◌
  submit_ends (pos zero) b w differ few h = cc
  submit_ends (pos (suc n)) b w differ few h = under_lock_ends (suc n) b w differ few h
  submit_ends (negsuc n) b w differ few h = cc
