-- ===== src/Broker/Changes.antt =====
-- What the methods of the broker may do to its records.
use snowglobe.Prelude.{String, ◌≡◌, Option, none, some, arith, inl, inr, Bool-cases, ◌&&◌}
use snowglobe.Exec.{
  Result, ok, err, Exec, Result-cases, pure, modify, ◌>>=◌, ◌>>◌, request_unavailable,
}
use snowglobe.Broker.Records.{
  RequestRecord, RequestView, CursorRef, SourceRef, cancelled, is_pending, is_complete, lookup,
}
use snowglobe.Broker.State.{Broker, Environment, cancel_optional, locked_record}
use snowglobe.Broker.Bodies.{
  write_record, attach_cursor, detach_cursor, complete_with, close_failed, completed_source,
  cancel_live, after_register, holds_cursor,
}
use snowglobe.Broker.Methods.{
  register_cursor, release_cursor, publish, fail, list_requests, get_request, open_source, cancel,
}
use snowglobe.Broker.Lifecycle.{Evolves}
use snowglobe.Broker.Progress.{
  Progress, Progress-refl, Progress-put_record, Progress-cancel_optional, locked_record-Progress,
  locked_records-Progress,
}

module _ (k : String) (r : RequestRecord) (b : Broker) (found : lookup k b.records ≡ some r) where
  Progress-write_record : (v : RequestRecord) → Evolves r v → Progress b (write_record k v b).1
  unfolding write_record
  Progress-write_record v e = Progress-put_record k r v b.reads b found e

  attach_cursor-Progress : (c : CursorRef) → Progress b (attach_cursor k c r b).1
  unfolding attach_cursor is_pending
  attach_cursor-Progress c =
      ground (arith, Progress-write_record (record r { cursor = some c }), Progress-refl b)

  detach_cursor-Progress : (c : CursorRef) → Progress b (detach_cursor k c r b).1
  unfolding detach_cursor is_pending
  detach_cursor-Progress c = elim (Bool-cases (is_pending r.status && holds_cursor c r.cursor)) [
    | inl p ↦ rw (p, detach_cursor) (Progress-write_record _ (ground arith))
    | inr p ↦ rw (p, detach_cursor) (Progress-refl b)
  ]

  complete_with-Progress : (s : SourceRef) → Progress b (complete_with k s r b).1
  unfolding complete_with is_pending
  complete_with-Progress s = elim (Bool-cases (is_pending r.status)) [
    | inl p ↦ rw (p, complete_with) (Progress-write_record _ (ground arith))
    | inr p ↦ rw (p, complete_with) (Progress-refl b)
  ]

  close_failed-Progress : Progress b (close_failed k r b).1
  unfolding close_failed is_pending
  close_failed-Progress = elim (Bool-cases (is_pending r.status)) [
    | inl p ↦ rw (p, close_failed) (Progress-write_record _ (ground arith))
    | inr p ↦ rw (p, close_failed) (Progress-refl b)
  ]

  completed_source-Progress : Progress b (completed_source r b).1
  unfolding completed_source is_complete
  completed_source-Progress = ground (arith, Progress-refl b)

  cancel_live-Progress : Progress b (cancel_live k r b).1
  unfolding cancel_live
  cancel_live-Progress = ground (
    arith,
    Progress-refl b,
    Progress-write_record (record r { status = cancelled; source = none; cursor = none }),
  )

after_register-Progress :
    (c : CursorRef) (res : Result (Option RequestView)) (a b : Broker)
    → Progress a b
    → Progress a (after_register c res b).1
unfolding after_register cancel_optional
after_register-Progress c (ok (some v)) a b h = h
after_register-Progress c (ok none) a b h = Progress-cancel_optional (some c) a b h
after_register-Progress c (err request_unavailable) a b h = Progress-cancel_optional (some c) a b h
after_register-Progress c (err _) a b h = h

module _ (env : Environment) (k : String) (b : Broker) where
  -- `fail` and `cancel` cancel the cursor that their body has taken off the record.
  closing-Progress :
      (body : RequestRecord → Exec Broker (RequestView × Option CursorRef))
      → ((r : RequestRecord) (b' : Broker)
          → lookup k b'.records ≡ some r
          → Progress b' (body r b').1)
      → Progress b
          ((do (v, cursor) ← locked_record env k body; modify (cancel_optional cursor); pure v) b).1
  unfolding ◌>>=◌
  closing-Progress body step =
      let h = locked_record-Progress env k body step b in
      elim (Result-cases (locked_record env k body b).0) [
        | inl ((v, c), e) ↦ rw e (Progress-cancel_optional c b _ h)
        | inr (x, e) ↦ rw e h
      ]

  pub register_cursor-Progress : (c : CursorRef) → Progress b (register_cursor env k c b).1
  unfolding register_cursor
  register_cursor-Progress c =
      after_register-Progress c (locked_record env k (attach_cursor k c) b).0 b _ (
        locked_record-Progress env k (attach_cursor k c)
          (λ r b' found. attach_cursor-Progress k r b' found c) b)

  pub release_cursor-Progress : (c : CursorRef) → Progress b (release_cursor env k c b).1
  unfolding release_cursor
  release_cursor-Progress c =
      locked_record-Progress env k (detach_cursor k c)
        (λ r b' found. detach_cursor-Progress k r b' found c) b

  pub publish-Progress : (s : SourceRef) → Progress b (publish env k s b).1
  unfolding publish
  publish-Progress s =
      locked_record-Progress env k (complete_with k s)
        (λ r b' found. complete_with-Progress k r b' found s) b

  pub fail-Progress : Progress b (fail env k b).1
  unfolding fail
  fail-Progress = closing-Progress (close_failed k) (close_failed-Progress k)

  pub cancel-Progress : Progress b (cancel env k b).1
  unfolding cancel
  cancel-Progress = closing-Progress (cancel_live k) (cancel_live-Progress k)

  pub get_request-Progress : Progress b (get_request env k b).1
  unfolding get_request ◌>>=◌
  get_request-Progress = locked_record-Progress env k _ (λ r b' found. Progress-refl b') b

  pub open_source-Progress : Progress b (open_source env k b).1
  unfolding open_source
  open_source-Progress =
      locked_record-Progress env k completed_source (completed_source-Progress k) b

pub list_requests-Progress : (env : Environment) (b : Broker) → Progress b (list_requests env b).1
unfolding list_requests ◌>>=◌
list_requests-Progress env b = locked_records-Progress env _ Progress-refl b
