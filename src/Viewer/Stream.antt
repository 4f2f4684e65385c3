-- ===== src/Viewer/Stream.antt =====
-- src/snowglobe/result_api.py: `_framed_stream` and the routes. `waits` has the calls of the broker
-- that others make before each check of the stream.
use snowglobe.Prelude.{
  ℕ, suc, String, Bool, false, List, [], ◌∷◌, ◌++◌, ◌==◌, length, if◌then◌else◌,
}
use snowglobe.Exec.{Result, ok, err, request_unavailable}
use snowglobe.Broker.Records.{RequestView, SourceRef}
use snowglobe.Broker.State.{Broker, Environment}
use snowglobe.Broker.Methods
use snowglobe.Broker.History.{Call, run}
use snowglobe.Arrow.Types.{Bytes}
use snowglobe.Arrow.Chunks.{Streamed}
use snowglobe.Viewer.Frames.{stream_magic, arrow_frame, complete_frame, pack_header}

-- `broker.open_source(request_id) is source`, false where it raises
unfoldable pub is_current : SourceRef → Result SourceRef → Bool
is_current source (ok s) = s == source
is_current source (err e) = false

-- What a route answers.
pub data Response (A : Type 0) : Type 0 where
  not_found unavailable : Response A
  found : A → Response A

-- the `except` lines of a route
unfoldable pub response_of : {A : Type 0} → Result A → Response A
response_of (ok a) = found a
response_of (err request_unavailable) = not_found
response_of (err e) = unavailable

module _ (env : Environment) where
  -- `list_requests`, whose one `except` takes every exception
  unfoldable pub list_requests : Broker → Response (List RequestView) × Broker
  list_requests b = elim (Methods.list_requests env b).0 [
    | ok views ↦ (found views, (Methods.list_requests env b).1)
    | err e ↦ (unavailable, (Methods.list_requests env b).1)
  ]

  unfoldable pub open_request : String → Broker → Response RequestView × Broker
  open_request request_id b =
      let (r, b') = Methods.get_request env request_id b in (response_of r, b')

  -- `stream_request`, up to the start of the stream
  unfoldable pub stream_request : String → Broker → Response SourceRef × Broker
  stream_request request_id b =
      let (r, b') = Methods.open_source env request_id b in (response_of r, b')

  module _ (request_id : String) (source : SourceRef) (waits : ℕ → List Call) where
    -- the end of the stream, once all chunks have come
    unfoldable pub last_frame : Broker → List Bytes × Broker
    last_frame b =
        let (r, b') = Methods.open_source env request_id b in
        if is_current source r
        then elim (pack_header complete_frame 0) [ ok h ↦ (h ∷ [], b') | err e ↦ ([], b') ]
        else ([], b')

    -- The loop over the chunks, of which `n` have come before.
    unfoldable pub frames_from : List Bytes → Result (Unit {0}) → ℕ → Broker → List Bytes × Broker
    frames_from [] (err e) n b = ([], b)
    frames_from [] (ok _) n b = last_frame (run env (waits n) b)
    frames_from (c ∷ cs) ending n b =
        let (r, b') = Methods.open_source env request_id (run env (waits n) b) in
        let (rest, b'') = frames_from cs ending (suc n) b' in
        if is_current source r
        then elim (pack_header arrow_frame (length c)) [
          | ok h ↦ ((h ++ c) ∷ rest, b'')
          | err e ↦ ([], b')
        ]
        else ([], b')

    -- `_framed_stream`, for the chunks of `ipc_chunks`
    unfoldable pub framed_stream : Streamed → Broker → List Bytes × Broker
    framed_stream s b =
        let (frames, b') = frames_from s.chunks s.ending 0 b in (stream_magic ∷ frames, b')
