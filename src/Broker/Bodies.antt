-- ===== src/Broker/Bodies.antt =====
-- src/snowglobe/broker.py: what the methods of `InProcessBroker` do under the lock.
use snowglobe.Prelude.{
  ℕ, zero, suc, ◌&&◌, String, Bool, true, false, Option, none, some, [], ◌∷◌, ◌++◌, ltb, leb, ◌==◌,
  length, if◌then◌else◌,
}
use snowglobe.Exec.{Result, ok, err, Exec, pure, raise, ◌>>=◌, ◌>>◌, request_unavailable}
use snowglobe.Broker.Records.{
  RequestRecord, RequestView, Entries, CursorRef, SourceRef, complete, failed, cancelled, expired,
  is_pending, is_complete, view, lookup, put_record, count_pending, evict_first,
}
use snowglobe.Broker.State.{Broker, cancel_quietly}

-- `_at_pending_capacity`
unfoldable pub at_pending_capacity : Broker → Bool
unfolding count_pending
at_pending_capacity b = elim b.maximum_pending_requests [
  | none ↦ false
  | some limit ↦ leb limit (count_pending b.records)
]

-- `_make_room`
unfoldable pub make_room : Exec Broker (Unit {0})
unfolding evict_first
make_room b = elim b.maximum_requests [
  | none ↦ (ok tt, b)
  | some limit ↦ if ltb (length b.records) limit then (ok tt, b) else elim (evict_first b.records) [
    | none ↦ (err request_unavailable, b)
    | some kept ↦ (ok tt, record b { records = kept })
  ]
]

-- writes to the record object under a key
unfoldable pub write_record : String → RequestRecord → Exec Broker (Unit {0})
unfolding put_record
write_record k r b = (ok tt, record b { records = put_record k r b.records })

-- `self._records[request_id] = record` for a key that is new
unfoldable pub add_record : RequestRecord → Exec Broker (Unit {0})
add_record r b = (ok tt, record b { records = b.records ++ (r.request_id, r) ∷ [] })

abbrev pub has_key : String → Entries → Bool
unfolding lookup
has_key k entries = elim (lookup k entries) [ none ↦ false | some r ↦ true ]

-- The loop of `_new_request_id`, on the number of tokens that it may draw.
unfoldable pub draw_id : (ℕ → String) → ℕ → Entries → ℕ → Option (String × ℕ)
unfolding lookup
draw_id token zero entries n = none
draw_id token (suc fuel) entries n =
    let rest = draw_id token fuel entries (suc n) in
    if has_key (token n) entries then rest else some (token n, suc n)

-- `register_cursor` once the lock is released: a cursor that was not attached is cancelled.
unfoldable pub after_register : CursorRef → Result (Option RequestView) → Exec Broker RequestView
unfolding cancel_quietly
after_register cursor (ok (some v)) b = (ok v, b)
after_register cursor (ok none) b = (err request_unavailable, cancel_quietly cursor b)
after_register cursor (err request_unavailable) b =
    (err request_unavailable, cancel_quietly cursor b)
after_register cursor (err e) b = (err e, b)

-- The body of `register_cursor`: the view, or nothing where the cursor does not fit.
unfoldable pub attach_cursor : String → CursorRef → RequestRecord → Exec Broker (Option RequestView)
unfolding is_pending write_record view ◌>>=◌
attach_cursor request_id cursor r = elim r.cursor [
  | some other ↦ pure none
  | none ↦
      if is_pending r.status
      then (do write_record request_id (record r { cursor = some cursor }); pure (some (view r)))
      else pure none
]

-- `record.cursor is cursor`
abbrev pub holds_cursor : CursorRef → Option CursorRef → Bool
holds_cursor cursor none = false
holds_cursor cursor (some c) = c == cursor

unfoldable pub detach_cursor : String → CursorRef → RequestRecord → Exec Broker (Unit {0})
unfolding is_pending write_record ◌>>=◌
detach_cursor request_id cursor r =
    if is_pending r.status && holds_cursor cursor r.cursor
    then write_record request_id (record r { cursor = none })
    else pure tt

-- the body of `publish`
unfoldable pub complete_with : String → SourceRef → RequestRecord → Exec Broker RequestView
unfolding is_pending write_record view ◌>>=◌
complete_with request_id source r =
    if is_pending r.status
    then (do
      let r' : RequestRecord = record r { source = some source; cursor = none; status = complete }
      write_record request_id r'
      pure (view r'))
    else raise request_unavailable

-- the body of `fail`: the view, and the cursor to cancel
unfoldable pub close_failed : String → RequestRecord → Exec Broker (RequestView × Option CursorRef)
unfolding is_pending write_record view ◌>>=◌
close_failed request_id r =
    if is_pending r.status
    then (do
      let r' : RequestRecord = record r { cursor = none; status = failed }
      write_record request_id r'
      pure (view r', r.cursor))
    else raise request_unavailable

-- the body of `open_source`
unfoldable pub completed_source : RequestRecord → Exec Broker SourceRef
unfolding is_complete ◌>>=◌
completed_source r = elim r.source [
  | none ↦ raise request_unavailable
  | some source ↦ if is_complete r.status then pure source else raise request_unavailable
]

-- the last lines of the body of `cancel`
unfoldable pub close_cancelled :
    String → RequestRecord → Exec Broker (RequestView × Option CursorRef)
unfolding write_record view ◌>>=◌
close_cancelled request_id r = do
  let r' : RequestRecord = record r { status = cancelled; source = none; cursor = none }
  write_record request_id r'
  pure (view r', r.cursor)

-- the body of `cancel`
unfoldable pub cancel_live : String → RequestRecord → Exec Broker (RequestView × Option CursorRef)
unfolding close_cancelled
cancel_live request_id r = elim r.status [
  | cancelled ↦ pure (view r, none)
  | expired ↦ raise request_unavailable
  | failed ↦ pure (view r, none)
  | _ ↦ close_cancelled request_id r
]
