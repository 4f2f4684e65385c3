-- ===== src/Control/Accepted.antt =====
-- What an accepted submission says of the broker.
use snowglobe.Prelude.{String, ◌≡◌, ◌≢◌, refl, false, Option, some, arith, Bool-cases, inl, inr}
use snowglobe.Exec.{
  Result, ok, err, Error, Result-cases, is_exception, suppress_unavailable, query_policy_rejected,
}
use snowglobe.Python.{ℤ}
use snowglobe.Broker.Records.{RequestView}
use snowglobe.Broker.State.{Environment, Broker}
use snowglobe.Broker.Methods
use snowglobe.Broker.Invariant.{IsWellFormed}
use snowglobe.Broker.Registered.{Registered, submit-Registered}
use snowglobe.Control.Contracts.{ReceiptStatus, accepted, ReasonCode, QueryReceipt, new_receipt}
use snowglobe.Control.Executor.{
  Executor, SubmittedQuery, submit_query, schedule, abandon, on_broker,
}
use snowglobe.Control.Plane.{rejected_receipt, receipt_of, submit}

new_receipt-status :
    (s : ReceiptStatus) (id : String) (c : ReasonCode) (sql : Option String) (r : QueryReceipt)
    → new_receipt s id c sql ≡ ok r
    → (r.status ≡ s) × (r.request_id ≡ id) × (r.governed_sql ≡ sql)
unfolding new_receipt
new_receipt-status s id c sql r h = ground arith

-- Only what the executor returned is accepted.
receipt_of-accepted :
    (token : String) (o : Result SubmittedQuery) (r : QueryReceipt)
    → receipt_of token o ≡ ok r
    → r.status ≡ accepted
    → (q : SubmittedQuery) × (o ≡ ok q)
      × (r.request_id ≡ q.request.request_id)
      × (r.governed_sql ≡ some q.governed_sql)
unfolding receipt_of rejected_receipt
receipt_of-accepted token (ok q) r h a =
    let (s, i, g) = new_receipt-status _ _ _ _ r h in (q, refl, i, g)
receipt_of-accepted token (err query_policy_rejected) r h a =
    let (s, i, g) = new_receipt-status _ _ _ _ r h in absurd (cc (s, a))
receipt_of-accepted token (err Error.cancelled_error) r h a = absurd (cc h)
receipt_of-accepted token (err Error.still_running) r h a = absurd (cc h)
receipt_of-accepted token (err e) r h a =
    let (s, i, g) = new_receipt-status _ _ _ _ r h in absurd (cc (s, a))

module _ (env : Environment) where
  -- How a submission to the executor came to return.
  pub record Scheduled (admitted : Result String) (created : Result (Unit {0})) (ttl : ℤ)
      (s : Executor) (q : SubmittedQuery) (s' : Executor) : Type 0 where
    pub is_open : s.closed ≡ false
    pub governed : admitted ≡ ok q.governed_sql
    pub created_well : created ≡ ok tt
    pub registered : (Methods.submit env ttl s.broker).0 ≡ ok q.request
    pub last : s'.broker ≡ (Methods.submit env ttl s.broker).1

  abandon_raises :
      (id : String) (e : Error) (b : Broker) (q : SubmittedQuery) → (abandon env id e b).0 ≢ ok q
  unfolding abandon
  abandon_raises id e b q h = elim (Bool-cases (is_exception e)) [
    | inr f ↦ absurd (cc (rw (f, abandon) at h))
    | inl f ↦ elim (Result-cases (suppress_unavailable (Methods.fail env id) b).0) [
      | inl (u, g) ↦ absurd (cc (rw (f, g, abandon) at h))
      | inr (x, g) ↦ absurd (cc (rw (f, g, abandon) at h))
    ]
  ]

  submit_query-Scheduled :
      (admitted : Result String) (created : Result (Unit {0})) (ttl : ℤ) (s : Executor)
      (q : SubmittedQuery)
      → (submit_query env admitted created ttl s).0 ≡ ok q
      → Scheduled admitted created ttl s q (submit_query env admitted created ttl s).1
  unfolding submit_query on_broker schedule
  submit_query-Scheduled admitted created ttl s q h =
      let call = Methods.submit env ttl s.broker in
      elim (Bool-cases s.closed) [
        | inl f ↦ absurd (cc (rw (f, submit_query) at h))
        | inr o ↦ elim (Result-cases admitted) [
          | inr (x, f) ↦ absurd (cc (rw (o, f, submit_query) at h))
          | inl (sql, f) ↦ elim (Result-cases call.0) [
            | inr (x, g) ↦ absurd (cc (rw (o, f, g, submit_query) at h))
            | inl (v, g) ↦ elim (Result-cases created) [
              | inr (x, k) ↦ absurd (abandon_raises _ _ _ q (rw (o, f, g, k, submit_query) at h))
              | inl (u, k) ↦
                  let h' = rw (o, f, g, k, submit_query) at h in
                  record {
                    is_open = o;
                    governed = cc (f, h');
                    created_well = k;
                    registered = cc (g, h');
                    last = rw (o, f, g, k, submit_query) refl;
                  }
            ]
          ]
        ]
      ]

  -- From an executor whose broker is well formed, a submission with an accepted receipt came while
  -- the executor was open, the SQL of the receipt is what the admission returned, and the broker
  -- has a pending record under the id of the receipt, which expires at most the maximum time to live
  -- after a reading of the clock.
  pub submit-accepted :
      (token : String) (admitted : Result String) (created : Result (Unit {0})) (ttl : ℤ)
      (s : Executor) (r : QueryReceipt)
      → IsWellFormed s.broker
      → (submit env token admitted created ttl s).0 ≡ ok r
      → r.status ≡ accepted
      → (v : RequestView) × (r.request_id ≡ v.request_id)
        × (sql : String) × (r.governed_sql ≡ some sql)
        × (admitted ≡ ok sql)
        × (s.closed ≡ false)
        × Registered env s.broker v (submit env token admitted created ttl s).1.broker
  unfolding submit
  submit-accepted token admitted created ttl s r w h a =
      let (q, e, i, g) = receipt_of-accepted token _ r h a in
      let d = submit_query-Scheduled admitted created ttl s q e in
      (
        q.request,
        i,
        q.governed_sql,
        g,
        d.governed,
        d.is_open,
        rw d.last (submit-Registered env s.broker w ttl q.request d.registered),
      )
