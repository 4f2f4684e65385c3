-- ===== src/Broker/Methods.antt =====
-- src/snowglobe/broker.py: the methods of `InProcessBroker`.
use snowglobe.Prelude.{ℕ, min, String, none, some, List, map, reverse, if◌then◌else◌}
use snowglobe.Exec.{
  ok, err, Exec, pure, raise, lift, gets, modify, ◌>>=◌, ◌>>◌, request_unavailable, still_running,
}
use snowglobe.Python.{ℤ, add_timedelta, require_positive}
use snowglobe.Broker.Records.{RequestRecord, RequestView, CursorRef, SourceRef, pending, view}
use snowglobe.Broker.Bodies.{
  at_pending_capacity, make_room, add_record, draw_id, after_register, attach_cursor, detach_cursor,
  complete_with, close_failed, completed_source, cancel_live,
}
use snowglobe.Broker.State.{
  Broker, Environment, cancel_optional, now, locked_record, locked_records,
}

module _ (env : Environment) where
  -- `_new_request_id`
  unfoldable pub new_request_id : Exec Broker String
  unfolding draw_id
  new_request_id b = elim (draw_id env.token env.draw_limit b.records b.draws) [
    | none ↦ (err still_running, b)
    | some (request_id, draws') ↦ (ok request_id, record b { draws = draws' })
  ]

  -- the last lines of the body of `submit`
  unfoldable pub register_pending : ℕ → Exec Broker RequestView
  unfolding add_record view ◌>>=◌
  register_pending ttl = do
    request_id ← new_request_id
    moment ← now env
    maximum_ttl ← gets (λ b. b.maximum_ttl)
    expires_at ← lift (add_timedelta moment (min ttl maximum_ttl))
    let r : RequestRecord = record {
      request_id = request_id;
      status = pending;
      expires_at = expires_at;
      source = none;
      cursor = none;
    }
    add_record r
    pure (view r)

  -- the body of `submit`, under the lock
  unfoldable pub admit_pending : ℕ → Exec Broker RequestView
  unfolding ◌>>=◌
  admit_pending ttl = do
    full ← gets at_pending_capacity
    if full then raise request_unavailable else do make_room; register_pending ttl

  unfoldable pub submit : ℤ → Exec Broker RequestView
  unfolding ◌>>=◌
  submit requested_ttl = do
    ttl ← lift (require_positive requested_ttl)
    locked_records env (admit_pending ttl)

  unfoldable pub register_cursor : String → CursorRef → Exec Broker RequestView
  unfolding attach_cursor after_register
  register_cursor request_id cursor b =
      let (result, b') = locked_record env request_id (attach_cursor request_id cursor) b in
      after_register cursor result b'

  unfoldable pub release_cursor : String → CursorRef → Exec Broker (Unit {0})
  unfolding detach_cursor
  release_cursor request_id cursor = locked_record env request_id (detach_cursor request_id cursor)

  unfoldable pub publish : String → SourceRef → Exec Broker RequestView
  unfolding complete_with
  publish request_id source = locked_record env request_id (complete_with request_id source)

  unfoldable pub fail : String → Exec Broker RequestView
  unfolding close_failed cancel_optional ◌>>=◌
  fail request_id = do
    (v, cursor) ← locked_record env request_id (close_failed request_id)
    modify (cancel_optional cursor)
    pure v

  unfoldable pub list_requests : Exec Broker (List RequestView)
  unfolding view ◌>>=◌
  list_requests = locked_records env (gets (λ b. map (λ e. view e.1) (reverse b.records)))

  unfoldable pub get_request : String → Exec Broker RequestView
  unfolding view ◌>>=◌
  get_request request_id = locked_record env request_id (λ r. pure (view r))

  unfoldable pub open_source : String → Exec Broker SourceRef
  unfolding completed_source
  open_source request_id = locked_record env request_id completed_source

  unfoldable pub cancel : String → Exec Broker RequestView
  unfolding cancel_live cancel_optional ◌>>=◌
  cancel request_id = do
    (v, cursor) ← locked_record env request_id (cancel_live request_id)
    modify (cancel_optional cursor)
    pure v
