-- ===== src/Broker/State.antt =====
-- src/snowglobe/broker.py: the state of the broker, its clock and the lock's context managers.
--
-- The lock makes every method atomic, so a method is one action on the broker's state. The clock,
-- the random tokens and the driver's cursors are not the program's: the n-th reading of the clock
-- and the n-th token are given by an environment, and each call of a cursor's `cancel` is logged.
use snowglobe.Prelude.{
  ℕ, suc, String, Bool, Option, none, some, List, [], ◌∷◌, ◌++◌, leb, if◌then◌else◌,
}
use snowglobe.Exec.{Result, ok, err, Exec, request_unavailable, value_error}
use snowglobe.Broker.Records.{
  RequestRecord, Entries, CursorRef, expired, is_live, lookup, put_record,
}
use snowglobe.Python.{ℤ, require_positive}

-- One value of the clock: a `datetime`, with or without a time zone.
pub record Reading : Type 0 where
  pub is_aware : Bool
  pub instant : ℕ

-- The n-th call of the clock, and the n-th call of `secrets.token_urlsafe(18)`; and how many tokens
-- the model lets one loop draw.
pub record Environment : Type 0 where
  pub clock : ℕ → Reading
  pub token : ℕ → String
  pub draw_limit : ℕ

pub record Broker : Type 0 where
  pub maximum_ttl : ℕ
  pub maximum_pending_requests : Option ℕ
  pub maximum_requests : Option ℕ
  pub records : Entries
  pub reads : ℕ
  pub draws : ℕ
  pub cancels : List CursorRef

require_positive_limit : Option ℤ → Result (Option ℕ)
unfolding require_positive
require_positive_limit none = ok none
require_positive_limit (some z) = elim (require_positive z) [ ok n ↦ ok (some n) | err e ↦ err e ]

with_limits : Result ℕ → Result (Option ℕ) → Result (Option ℕ) → Result Broker
with_limits (err e) _ _ = err e
with_limits (ok ttl) (err e) _ = err e
with_limits (ok ttl) (ok waiting) (err e) = err e
with_limits (ok ttl) (ok waiting) (ok requests) = ok (record {
  maximum_ttl = ttl;
  maximum_pending_requests = waiting;
  maximum_requests = requests;
  records = [];
  reads = 0;
  draws = 0;
  cancels = [];
})

-- `InProcessBroker.__init__`
unfoldable pub init : ℤ → Option ℤ → Option ℤ → Result Broker
unfolding require_positive_limit with_limits
init maximum_ttl maximum_pending maximum_requests =
    with_limits (require_positive maximum_ttl) (require_positive_limit maximum_pending)
      (require_positive_limit maximum_requests)

-- `_cancel_quietly`: what the driver's `cancel` raises is suppressed.
unfoldable pub cancel_quietly : CursorRef → Broker → Broker
cancel_quietly c b = record b { cancels = b.cancels ++ c ∷ [] }

unfoldable pub cancel_optional : Option CursorRef → Broker → Broker
unfolding cancel_quietly
cancel_optional none b = b
cancel_optional (some c) b = cancel_quietly c b

unfoldable pub cancel_each : List CursorRef → Broker → Broker
unfolding cancel_quietly
cancel_each [] b = b
cancel_each (c ∷ cs) b = cancel_each cs (cancel_quietly c b)

-- `_now` after a reading
unfoldable pub reading_instant : Reading → Result ℕ
reading_instant r = if r.is_aware then ok r.instant else err value_error

-- what `_expire` writes to a record whose time has come
unfoldable pub close_expired : RequestRecord → RequestRecord
close_expired r = record r { status = expired; source = none; cursor = none }

unfoldable pub expire_at : RequestRecord → Result ℕ → Result (Option CursorRef) × RequestRecord
unfolding close_expired
expire_at r (err e) = (err e, r)
expire_at r (ok now) = if leb r.expires_at now then (ok r.cursor, close_expired r) else (ok none, r)

-- the `if (cursor := self._expire(record)) is not None` of the comprehension
abbrev pub add_cursor : Option CursorRef → Result (List CursorRef) → Result (List CursorRef)
add_cursor none cs = cs
add_cursor (some c) (ok cs) = ok (c ∷ cs)
add_cursor (some c) (err e) = err e

module _ (env : Environment) where
  -- `_now`
  unfoldable pub now : Exec Broker ℕ
  unfolding reading_instant
  now b = (reading_instant (env.clock b.reads), record b { reads = suc b.reads })

  -- `_expire`, after the clock has been called `reads` times: the clock is read only for a record
  -- that is still live.
  unfoldable pub expire : RequestRecord → ℕ → Result (Option CursorRef) × RequestRecord × ℕ
  unfolding is_live expire_at reading_instant
  expire r reads =
      if is_live r.status
      then (let (cursor, r') = expire_at r (reading_instant (env.clock reads)) in
          (cursor, r', suc reads))
      else (ok none, r, reads)

  -- The comprehension of `_locked_records`: an exception of the clock stops it, and what was closed
  -- before it stays closed.
  unfoldable pub expire_all : Entries → ℕ → Result (List CursorRef) × Entries × ℕ
  expire_all [] reads = (ok [], [], reads)
  expire_all ((k, r) ∷ rest) reads =
      let (cursor, r', reads') = expire r reads in
      elim cursor [
        | err e ↦ (err e, (k, r') ∷ rest, reads')
        | ok c ↦
            let (cursors, rest', reads'') = expire_all rest reads' in
            (add_cursor c cursors, (k, r') ∷ rest', reads'')
      ]

  -- `with self._locked_record(request_id) as record`, around a body
  unfoldable pub locked_record {ℓ} :
      {A : Type ℓ} → String → (RequestRecord → Exec Broker A) → Exec Broker A
  locked_record request_id body b = elim (lookup request_id b.records) [
    | none ↦ (err request_unavailable, b)
    | some r ↦
        let (cursor, r', reads') = expire r b.reads in
        let b' = record b { records = put_record request_id r' b.records; reads = reads' } in
        elim cursor [
          | err e ↦ (err e, b')
          | ok c ↦ let (result, b'') = body r' b' in (result, cancel_optional c b'')
        ]
  ]

  -- `with self._locked_records()`, around a body
  unfoldable pub locked_records {ℓ} : {A : Type ℓ} → Exec Broker A → Exec Broker A
  locked_records body b =
      let (cursors, records', reads') = expire_all b.records b.reads in
      let b' = record b { records = records'; reads = reads' } in
      elim cursors [
        | err e ↦ (err e, b')
        | ok cs ↦ let (result, b'') = body b' in (result, cancel_each cs b'')
      ]
