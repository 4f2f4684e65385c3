-- ===== src/Broker/Records.antt =====
-- src/snowglobe/broker.py: the request records and the dict that holds them, in insertion order.
use snowglobe.Prelude.{
  ℕ, ◌+◌, String, Bool, true, false, Option, none, some, List, [], ◌∷◌, str_eq, if◌then◌else◌,
}

pub data RequestStatus : Type 0 where
  pending complete failed cancelled expired : RequestStatus

-- `status is RequestStatus.PENDING`
unfoldable pub is_pending : RequestStatus → Bool
is_pending pending = true
is_pending _ = false

-- `status is RequestStatus.COMPLETE`
unfoldable pub is_complete : RequestStatus → Bool
is_complete complete = true
is_complete _ = false

-- `status in {PENDING, COMPLETE}`, the states that `_expire` closes
unfoldable pub is_live : RequestStatus → Bool
is_live pending = true
is_live complete = true
is_live _ = false

-- `status in {FAILED, CANCELLED, EXPIRED}`, the states that `_make_room` evicts
unfoldable pub is_evictable : RequestStatus → Bool
is_evictable failed = true
is_evictable cancelled = true
is_evictable expired = true
is_evictable _ = false

-- Python object references: two are the same object exactly if they are equal.
abbrev pub SourceRef : Type 0
SourceRef = ℕ

abbrev pub CursorRef : Type 0
CursorRef = ℕ

pub record RequestView : Type 0 where
  pub request_id : String
  pub status : RequestStatus
  pub expires_at : ℕ

pub record RequestRecord : Type 0 where
  pub request_id : String
  pub status : RequestStatus
  pub expires_at : ℕ
  pub source : Option SourceRef
  pub cursor : Option CursorRef

unfoldable pub view : RequestRecord → RequestView
view r = record { request_id = r.request_id; status = r.status; expires_at = r.expires_at }

abbrev pub Entries : Type 0
Entries = List (String × RequestRecord)

-- `self._records.get(request_id)`
unfoldable pub lookup : String → Entries → Option RequestRecord
lookup k [] = none
lookup k ((j, r) ∷ rest) = if str_eq j k then some r else lookup k rest

-- The record object under a key is changed in place: the dict keeps its place.
unfoldable pub put_record : String → RequestRecord → Entries → Entries
put_record k v [] = []
put_record k v ((j, r) ∷ rest) = if str_eq j k then (j, v) ∷ rest else (j, r) ∷ put_record k v rest

-- `sum(record.status is RequestStatus.PENDING for record in self._records.values())`
unfoldable pub count_pending : Entries → ℕ
unfolding is_pending
count_pending [] = 0
count_pending ((j, r) ∷ rest) = (if is_pending r.status then 1 else 0) + count_pending rest

-- The loop of `_make_room`: the first record in a terminal state is deleted.
unfoldable pub evict_first : Entries → Option Entries
unfolding is_evictable
evict_first [] = none
evict_first ((j, r) ∷ rest) =
    let kept = evict_first rest in
    if is_evictable r.status
    then some rest
    else elim kept [ none ↦ none | some rest' ↦ some ((j, r) ∷ rest') ]
