-- ===== src/Broker/Progress.antt =====
-- Every method that runs under the lock of one record changes the records lawfully.
use snowglobe.Prelude.{
  ℕ, String, ◌≡◌, refl, ◌∙◌, ◌⊎◌, Option, none, some, List, [], ◌∷◌, arith, Option-cases, inl, inr,
}
use snowglobe.Exec.{ok, err, Exec, Error, Result-cases}
use snowglobe.Broker.Records.{RequestRecord, Entries, CursorRef, is_live, lookup, put_record}
use snowglobe.Broker.State.{
  Broker, Environment, cancel_optional, cancel_each, expire, expire_all, locked_record,
  locked_records,
}
use snowglobe.Broker.Lifecycle.{
  Evolves, EvolvesAll, EvolvesAll-refl, EvolvesAll-trans, EvolvesAll-put_record,
  lookup-put_record_self,
}

pub record Progress (b b' : Broker) : Type 0 where
  pub same_ttl : b'.maximum_ttl ≡ b.maximum_ttl
  pub same_pending : b'.maximum_pending_requests ≡ b.maximum_pending_requests
  pub same_requests : b'.maximum_requests ≡ b.maximum_requests
  pub same_draws : b'.draws ≡ b.draws
  pub evolved : EvolvesAll b.records b'.records

pub Progress-refl : (b : Broker) → Progress b b
Progress-refl b = record {
  same_ttl = refl;
  same_pending = refl;
  same_requests = refl;
  same_draws = refl;
  evolved = EvolvesAll-refl b.records;
}

pub Progress-trans : (a b c : Broker) → Progress a b → Progress b c → Progress a c
Progress-trans a b c h k = record {
  same_ttl = k.same_ttl ∙ h.same_ttl;
  same_pending = k.same_pending ∙ h.same_pending;
  same_requests = k.same_requests ∙ h.same_requests;
  same_draws = k.same_draws ∙ h.same_draws;
  evolved = EvolvesAll-trans a.records b.records c.records h.evolved k.evolved;
}

-- What a write of a lawfully changed record does.
pub Progress-put_record :
    (k : String) (r v : RequestRecord) (n : ℕ) (b : Broker)
    → lookup k b.records ≡ some r
    → Evolves r v
    → Progress b (record b { records = put_record k v b.records; reads = n })
Progress-put_record k r v n b h e = record {
  same_ttl = refl;
  same_pending = refl;
  same_requests = refl;
  same_draws = refl;
  evolved = EvolvesAll-put_record k r v b.records h e;
}

pub Progress-cancel_optional :
    (c : Option CursorRef) (a b : Broker) → Progress a b → Progress a (cancel_optional c b)
unfolding cancel_optional
Progress-cancel_optional none a b h = h
Progress-cancel_optional (some c) a b h = record {
  same_ttl = h.same_ttl;
  same_pending = h.same_pending;
  same_requests = h.same_requests;
  same_draws = h.same_draws;
  evolved = h.evolved;
}

pub Progress-cancel_each :
    (cs : List CursorRef) (a b : Broker) → Progress a b → Progress a (cancel_each cs b)
unfolding cancel_each
Progress-cancel_each [] a b h = h
Progress-cancel_each (c ∷ cs) a b h = Progress-cancel_each cs a _ (record {
  same_ttl = h.same_ttl;
  same_pending = h.same_pending;
  same_requests = h.same_requests;
  same_draws = h.same_draws;
  evolved = h.evolved;
})

module _ (env : Environment) where
  pub expire-Evolves : (r : RequestRecord) (n : ℕ) → Evolves r (expire env r n).1
  unfolding expire is_live
  expire-Evolves r n = ground arith

  pub expire_all-EvolvesAll : (es : Entries) (n : ℕ) → EvolvesAll es (expire_all env es n).1
  unfolding expire_all
  expire_all-EvolvesAll [] n = tt
  expire_all-EvolvesAll ((k, r) ∷ es) n = elim (Result-cases (expire env r n).0) [
    | inl (c, e) ↦
        rw (e, expire_all) (refl, expire-Evolves r n, expire_all-EvolvesAll es (expire env r n).2)
    | inr (x, e) ↦ rw (e, expire_all) (refl, expire-Evolves r n, EvolvesAll-refl es)
  ]

  -- The broker once `_locked_records` has closed what has expired.
  unfoldable pub after_expiry : Broker → Broker
  after_expiry b =
      let (_, records', n) = expire_all env b.records b.reads in
      record b { records = records'; reads = n }

  pub after_expiry-Progress : (b : Broker) → Progress b (after_expiry b)
  unfolding after_expiry
  after_expiry-Progress b = record {
    same_ttl = refl;
    same_pending = refl;
    same_requests = refl;
    same_draws = refl;
    evolved = expire_all-EvolvesAll b.records b.reads;
  }

  module _ {ℓ} {A : Type ℓ} where
    pub locked_record-Progress :
        (k : String) (body : RequestRecord → Exec Broker A)
        → ((r : RequestRecord) (b : Broker) → lookup k b.records ≡ some r → Progress b (body r b).1)
        → (b : Broker) → Progress b (locked_record env k body b).1
    unfolding locked_record
    locked_record-Progress k body step b = elim (Option-cases (lookup k b.records)) [
      | inl missing ↦ rw (missing, locked_record) (Progress-refl b)
      | inr (r, found) ↦
          let (cursor, r', n) = expire env r b.reads in
          let b' : Broker = record b { records = put_record k r' b.records; reads = n } in
          let closed : Progress b b' =
            Progress-put_record k r r' n b found (expire-Evolves r b.reads) in
          elim (Result-cases cursor) [
            | inl (c, e) ↦
                rw (found, locked_record, e)
                  (Progress-cancel_optional c b (body r' b').1 (
                    Progress-trans b b' (body r' b').1 closed
                      (step r' b' (lookup-put_record_self k r r' b.records found))))
            | inr (x, e) ↦ rw (found, locked_record, e) closed
          ]
    ]

    -- `_locked_records` closes what has expired, and then stops or runs its body there.
    pub locked_records_cases :
        (body : Exec Broker A) (b : Broker)
        → ((x : Error) × (locked_records env body b ≡ (err x, after_expiry b)))
          ⊎ ((cs : List CursorRef) × (locked_records env body b
                ≡ ((body (after_expiry b)).0, cancel_each cs (body (after_expiry b)).1)))
    unfolding locked_records after_expiry
    locked_records_cases body b = elim (Result-cases (expire_all env b.records b.reads).0) [
      | inl (cs, e) ↦ inr (cs, rw (e, locked_records))
      | inr (x, e) ↦ inl (x, rw (e, locked_records))
    ]

    pub locked_records-Progress :
        (body : Exec Broker A)
        → ((b : Broker) → Progress b (body b).1)
        → (b : Broker) → Progress b (locked_records env body b).1
    locked_records-Progress body step b = elim (locked_records_cases body b) [
      | inl (x, e) ↦ rw e (after_expiry-Progress b)
      | inr (cs, e) ↦ rw e (
          Progress-cancel_each cs b (body (after_expiry b)).1 (
            Progress-trans b (after_expiry b) (body (after_expiry b)).1 (after_expiry-Progress b)
              (step (after_expiry b))))
    ]

-- How a method under the lock of one record came to return: the record was found, the clock did not
-- raise, and the body ran on the record, closed if its time had come.
pub record Ran {ℓ} (env : Environment) {A : Type ℓ} (k : String)
    (body : RequestRecord → Exec Broker A) (b : Broker) (a : A) : Type ℓ where
  pub before : RequestRecord
  pub found : lookup k b.records ≡ some before
  pub request : RequestRecord
  pub expiry : Option CursorRef
  pub reads : ℕ
  pub expires : expire env before b.reads ≡ (ok expiry, request, reads)
  pub state : Broker
  pub locked : state ≡ record b { records = put_record k request b.records; reads = reads }
  pub returned : (body request state).0 ≡ ok a
  pub result : locked_record env k body b ≡ (ok a, cancel_optional expiry (body request state).1)

module _ {ℓ} (env : Environment) {A : Type ℓ} (k : String) (body : RequestRecord → Exec Broker A)
    (b : Broker) (a : A) where
  pub locked_record-Ran : (locked_record env k body b).0 ≡ ok a → Ran env k body b a
  unfolding locked_record
  locked_record-Ran h = elim (Option-cases (lookup k b.records)) [
    | inl e ↦ absurd (cc (rw (e, locked_record) at h))
    | inr (r, e) ↦ elim (Result-cases (expire env r b.reads).0) [
      | inr (x, p) ↦ absurd (cc (rw (e, locked_record, p) at h))
      | inl (c, p) ↦
          let b' : Broker = record b {
            records = put_record k (expire env r b.reads).1 b.records;
            reads = (expire env r b.reads).2;
          } in
          let q : (body (expire env r b.reads).1 b').0 ≡ ok a = rw (e, locked_record, p) at h in
          record {
            before = r;
            found = e;
            request = (expire env r b.reads).1;
            expiry = c;
            reads = (expire env r b.reads).2;
            expires = λ i. (p i, (expire env r b.reads).1, (expire env r b.reads).2);
            state = b';
            locked = refl;
            returned = q;
            result =
                rw (e, locked_record, p)
                  (λ i. (q i, cancel_optional c (body (expire env r b.reads).1 b').1));
          }
    ]
  ]

pub Ran-lookup {ℓ} :
    (env : Environment) {A : Type ℓ} (k : String) (body : RequestRecord → Exec Broker A)
    (b : Broker) (a : A) (h : Ran env k body b a)
    → lookup k h.state.records ≡ some h.request
Ran-lookup env k body b a h =
    rw h.locked (lookup-put_record_self k h.before h.request b.records h.found)

pub cancel_optional-records :
    (c : Option CursorRef) (b : Broker) → (cancel_optional c b).records ≡ b.records
unfolding cancel_optional
cancel_optional-records none b = refl
cancel_optional-records (some c) b = refl

pub cancel_each-draws : (cs : List CursorRef) (b : Broker) → (cancel_each cs b).draws ≡ b.draws
unfolding cancel_each
cancel_each-draws [] b = refl
cancel_each-draws (c ∷ cs) b = cancel_each-draws cs _

pub cancel_each-records :
    (cs : List CursorRef) (b : Broker) → (cancel_each cs b).records ≡ b.records
unfolding cancel_each
cancel_each-records [] b = refl
cancel_each-records (c ∷ cs) b = cancel_each-records cs _
