-- ===== src/Broker/Retained.antt =====
-- The records that a submission does not touch.
use snowglobe.Prelude.{
  ℕ, suc, ◌+◌, ◌≤◌, ◌<◌, String, ◌≡◌, ◌⊎◌, refl, true, some, [], ◌∷◌, ◌++◌, arith, length,
  Bool-cases, inl, inr, str_eq,
}
use snowglobe.Exec.{Result, ok, err, Result-cases}
use snowglobe.Python.{ℤ}
use snowglobe.Broker.Records.{
  RequestRecord, RequestView, Entries, is_live, lookup, pending, complete, failed, cancelled,
  expired, RequestStatus,
}
use snowglobe.Broker.State.{Broker, Environment, expire, expire_all, expire_at, reading_instant}
use snowglobe.Broker.Methods.{submit}
use snowglobe.Broker.Invariant.{IsWellFormed}
use snowglobe.Broker.Progress.{after_expiry, cancel_each-records}
use snowglobe.Broker.Eviction.{IsTerminal, Evicts}
use snowglobe.Broker.Admission.{Outcome}
use snowglobe.Broker.Submit.{submit_cases}

is_live-of_IsTerminal : (s : RequestStatus) → ¬ IsTerminal s → is_live s ≡ true
unfolding is_live
is_live-of_IsTerminal pending h = refl
is_live-of_IsTerminal complete h = refl
is_live-of_IsTerminal failed h = absurd (h tt)
is_live-of_IsTerminal cancelled h = absurd (h tt)
is_live-of_IsTerminal expired h = absurd (h tt)

lookup-drop :
    (k : String) (r : RequestRecord) (before after : Entries) (e : String × RequestRecord)
    → IsTerminal e.1.status
    → ¬ IsTerminal r.status
    → lookup k (before ++ e ∷ after) ≡ some r
    → lookup k (before ++ after) ≡ some r
unfolding lookup
lookup-drop k r [] after (j, s) t live h = elim (Bool-cases (str_eq j k)) [
  | inl e ↦ let same : s ≡ r = cc (rw (e, lookup) at h) in absurd (live (rw same at t))
  | inr e ↦ rw (e, lookup) at h
]
lookup-drop k r ((j, s) ∷ before) after e t live h =
    ground (arith, lookup-drop k r before after e t live)

lookup-append-some :
    (k : String) (r : RequestRecord) (es fs : Entries)
    → lookup k es ≡ some r
    → lookup k (es ++ fs) ≡ some r
unfolding lookup
lookup-append-some k r [] fs h = absurd (cc h)
lookup-append-some k r ((j, s) ∷ es) fs h = ground (arith, lookup-append-some k r es fs)

lookup-retained :
    (k : String) (r : RequestRecord) (es fs : Entries)
    → (fs ≡ es) ⊎ Evicts es fs
    → ¬ IsTerminal r.status
    → lookup k es ≡ some r
    → lookup k fs ≡ some r
lookup-retained k r es fs (inl e) live h = rw e h
lookup-retained k r es fs (inr v) live h =
    rw v.rest (lookup-drop k r v.before v.after v.entry v.terminal live (rw v.split at h))

-- So many readings of the clock from a start on have a time zone and are before the expiry of a record.
abbrev pub IsEarly : Environment → RequestRecord → ℕ → ℕ → Type 0
IsEarly env r start count =
    (n : ℕ)
    → start ≤ n
    → n < start + count
    → ((env.clock n).is_aware ≡ true) × ((env.clock n).instant < r.expires_at)

module _ (env : Environment) (k : String) (r : RequestRecord) (live : ¬ IsTerminal r.status) where
  expire_keeps :
      (n : ℕ)
      → (env.clock n).is_aware ≡ true
      → (env.clock n).instant < r.expires_at
      → (expire env r n).1 ≡ r
  unfolding expire expire_at reading_instant
  expire_keeps n aware early = ground (arith, is_live-of_IsTerminal r.status live)

  expire_reads :
      (s : RequestRecord) (n : ℕ) → (n ≤ (expire env s n).2) × ((expire env s n).2 ≤ suc n)
  unfolding expire
  expire_reads s n = ground arith

  lookup-expire_all :
      (es : Entries) (n : ℕ)
      → IsEarly env r n (length es)
      → lookup k es ≡ some r
      → lookup k (expire_all env es n).1 ≡ some r
  unfolding expire_all lookup
  lookup-expire_all [] n early h = absurd (cc h)
  lookup-expire_all ((j, s) ∷ es) n early h = elim (Bool-cases (str_eq j k)) [
    | inl e ↦
        let same : s ≡ r = cc (rw (e, lookup) at h) in
        let (aware, before) = early n (omega arith) (omega arith) in
        let kept : (expire env s n).1 ≡ r = rw same (expire_keeps n aware before) in
        elim (Result-cases (expire env s n).0) [
          | inl (c, f) ↦ rw (f, expire_all, e, lookup) (ground (arith, kept))
          | inr (x, f) ↦ rw (f, expire_all, e, lookup) (ground (arith, kept))
        ]
    | inr e ↦
        let rest : lookup k es ≡ some r = rw (e, lookup) at h in
        elim (Result-cases (expire env s n).0) [
          | inr (x, f) ↦ rw (f, expire_all, e, lookup) rest
          | inl (c, f) ↦
              let (low, high) = expire_reads s n in
              rw (f, expire_all, e, lookup)
                (lookup-expire_all es (expire env s n).2
                  (λ m from below. early m (omega arith) (omega arith)) rest)
        ]
  ]

  lookup-Outcome :
      (ttl : ℕ) (b : Broker) (res : Result RequestView) (b' : Broker)
      → Outcome env ttl b (res, b')
      → lookup k b.records ≡ some r
      → lookup k b'.records ≡ some r
  lookup-Outcome ttl b (ok v) b' o h =
      rw o.added
        (lookup-append-some k r o.kept _ (lookup-retained k r b.records o.kept o.retained live h))
  lookup-Outcome ttl b (err x) b' o h = lookup-retained k r b.records b'.records o.retained live h

  -- Whether `submit` returns or raises, a record of a well-formed broker that is pending or complete stays as it
  -- is, if the readings of the clock that the call may make before its body, one for each record, have a time zone and
  -- are before the expiry of that record: nothing makes room at the cost of a result that has not expired.
  pub submit_keeps :
      (b : Broker) (z : ℤ)
      → IsWellFormed b
      → IsEarly env r b.reads (length b.records)
      → lookup k b.records ≡ some r
      → lookup k (submit env z b).1.records ≡ some r
  unfolding after_expiry
  submit_keeps b z w early h = elim (submit_cases env b w z) [
    | inl (x, p, e) ↦ rw e h
    | inr (ttl, p, s) ↦
        rw (s.eq, cancel_each-records s.cursors s.state)
          (lookup-Outcome ttl (after_expiry env b) s.result s.state s.outcome
            (lookup-expire_all b.records b.reads early h))
  ]
