-- ===== src/Broker/Publication.antt =====
-- Attaching a cursor and publishing a result.
use snowglobe.Prelude.{
  ◌<◌, String, ◌≡◌, ◌≢◌, refl, true, false, Option, none, some, List, [], ◌∷◌, ◌++◌, arith,
  Option-cases, inl, inr,
}
use snowglobe.Exec.{Error, Result, ok, err, request_unavailable}
use snowglobe.Broker.Records.{
  RequestRecord, RequestView, CursorRef, SourceRef, pending, complete, is_pending, lookup, view,
}
use snowglobe.Broker.State.{Broker, Environment, locked_record, expire}
use snowglobe.Broker.Bodies.{complete_with, attach_cursor, after_register}
use snowglobe.Broker.Methods.{open_source, publish, register_cursor}
use snowglobe.Broker.Lifecycle.{lookup-put_record_self}
use snowglobe.Broker.Progress.{locked_record-Ran, Ran-lookup, cancel_optional-records}
use snowglobe.Broker.Access.{open_source-Available}

pub complete_with-published :
    (k : String) (s : SourceRef) (r : RequestRecord) (b : Broker) (v : RequestView)
    → lookup k b.records ≡ some r
    → (complete_with k s r b).0 ≡ ok v
    → (r' : RequestRecord) × (lookup k (complete_with k s r b).1.records ≡ some r')
      × (r'.status ≡ complete)
      × (r'.source ≡ some s)
      × (v ≡ view r')
      × (is_pending r.status ≡ true)
unfolding complete_with view
complete_with-published k s r b v found h =
    let r' : RequestRecord = record r { source = some s; cursor = none; status = complete } in
    let p : is_pending r.status ≡ true = ground arith in
    (r', ground (arith, lookup-put_record_self k r r' b.records), refl, refl, ground arith, p)

-- A result that was published can be read until its request expires.
pub publish_then_open :
    (env : Environment) (k : String) (s : SourceRef) (b : Broker) (v : RequestView)
    → (publish env k s b).0 ≡ ok v
    → (env.clock (publish env k s b).1.reads).is_aware ≡ true
    → (env.clock (publish env k s b).1.reads).instant < v.expires_at
    → (open_source env k (publish env k s b).1).0 ≡ ok s
unfolding publish view
publish_then_open env k s b v h aware early =
    let ran = locked_record-Ran env k (complete_with k s) b v h in
    let (r', found, done, holds, eq, was) =
      complete_with-published k s ran.request ran.state v
        (Ran-lookup env k (complete_with k s) b v ran) ran.returned in
    (open_source-Available env k (publish env k s b).1 s).1 (record {
      request = r';
      found = rw (ran.result, cancel_optional-records) found;
      is_complete = done;
      holds = holds;
      aware = aware;
      in_time = rw eq at early;
    })

attach_cursor-attached :
    (k : String) (c : CursorRef) (r : RequestRecord) (b : Broker) (v : RequestView)
    → lookup k b.records ≡ some r
    → (attach_cursor k c r b).0 ≡ ok (some v)
    → (r' : RequestRecord) × (lookup k (attach_cursor k c r b).1.records ≡ some r')
      × (r'.status ≡ pending)
      × (r'.cursor ≡ some c)
unfolding attach_cursor is_pending
attach_cursor-attached k c r b v found h =
    let r' : RequestRecord = record r { cursor = some c } in
    (r', ground (arith, lookup-put_record_self k r r' b.records), ground arith, refl)

-- How a registration ends: the cursor is held by the pending record, or it was cancelled, or the
-- clock gave a time without a zone.
abbrev pub Accounted :
    Environment → String → CursorRef → Broker → Result RequestView × Broker → Type 0
Accounted env k c b (ok v, b') =
    (r : RequestRecord) × (lookup k b'.records ≡ some r)
    × (r.status ≡ pending)
    × (r.cursor ≡ some c)
Accounted env k c b (err request_unavailable, b') =
    (older : List CursorRef) × (b'.cancels ≡ older ++ c ∷ [])
Accounted env k c b (err _, b') = (env.clock b.reads).is_aware ≡ false

module _ (env : Environment) (k : String) (c : CursorRef) (b : Broker) where
  naive_error :
      (x : Error)
      → (locked_record env k (attach_cursor k c) b).0 ≡ err x
      → x ≢ request_unavailable
      → (env.clock b.reads).is_aware ≡ false
  unfolding locked_record attach_cursor expire
  naive_error x h other = elim (Option-cases (lookup k b.records)) [
    | inl e ↦ absurd (other (cc (rw (e, locked_record) at h)))
    | inr (r, e) ↦ ground arith
  ]

  after_register-Accounted :
      (res : Result (Option RequestView)) (b' : Broker)
      → (locked_record env k (attach_cursor k c) b).0 ≡ res
      → (locked_record env k (attach_cursor k c) b).1 ≡ b'
      → Accounted env k c b (after_register c res b')
  unfolding after_register
  after_register-Accounted (ok (some v)) b' e e' =
      let ran = locked_record-Ran env k (attach_cursor k c) b (some v) e in
      let (r, found, p, q) =
        attach_cursor-attached k c ran.request ran.state v
          (Ran-lookup env k (attach_cursor k c) b (some v) ran) ran.returned in
      (r, rw (← e', ran.result, cancel_optional-records) found, p, q)
  after_register-Accounted (ok none) b' e e' = (b'.cancels, refl)
  after_register-Accounted (err request_unavailable) b' e e' = (b'.cancels, refl)
  after_register-Accounted (err x) b' e e' = naive_error _ e (λ p. cc p)

  -- A cursor that is handed over is held by the pending request, where `fail`, `cancel` and expiry
  -- find it, or it is the last one that was cancelled when the call says that the request is
  -- unavailable. Any other failure of the call is that of a clock without a time zone.
  pub register_cursor-Accounted : Accounted env k c b (register_cursor env k c b)
  unfolding register_cursor
  register_cursor-Accounted = after_register-Accounted _ _ refl refl
