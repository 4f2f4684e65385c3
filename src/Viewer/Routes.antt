-- ===== src/Viewer/Routes.antt =====
-- src/snowglobe/result_api.py: the answers of the routes, as the code hands them to Starlette.
use snowglobe.Prelude.{
  ℕ, String, Bool, Option, none, some, List, [], ◌∷◌, str_eq, if◌then◌else◌, ◌&&◌,
}
use snowglobe.Broker.Records.{
  RequestStatus, RequestView, SourceRef, pending, complete, failed, cancelled, expired,
}
use snowglobe.Broker.State.{Broker, Environment}
use snowglobe.Broker.History.{Call}
use snowglobe.Arrow.Types.{Bytes}
use snowglobe.Arrow.Chunks.{Streamed}
use snowglobe.Viewer.Stream
use snowglobe.Viewer.Stream.{Response, not_found, unavailable, found, framed_stream}

abbrev pub Fields : Type 0
Fields = List (String × String)

-- The content of an answer: an object, the object of the list of requests, or a stream.
pub data Body : Type 0 where
  fields : Fields → Body
  requests : List Fields → Body
  stream : List Bytes → Body

pub record HttpResponse : Type 0 where
  pub status_code : ℕ
  pub headers : Fields
  pub media_type : Option String
  pub body : Body

abbrev pub stream_content_type : String
stream_content_type = "application/vnd.snowglobe.arrow-stream"

-- `RESPONSE_HEADERS`
abbrev pub response_headers : Fields
response_headers = ("Cache-Control", "no-store") ∷ []

abbrev pub status_text : RequestStatus → String
status_text pending = "pending"
status_text complete = "complete"
status_text failed = "failed"
status_text cancelled = "cancelled"
status_text expired = "expired"

-- `JSONResponse` with the headers of the program
abbrev pub json_response : ℕ → Body → HttpResponse
json_response status_code body = record {
  status_code = status_code;
  headers = response_headers;
  media_type = none;
  body = body;
}

abbrev pub not_found_response : HttpResponse
not_found_response = json_response 404 (fields (("error", "not_found") ∷ []))

abbrev pub unavailable_response : HttpResponse
unavailable_response = json_response 503 (fields (("error", "service_unavailable") ∷ []))

-- `health`
abbrev pub health : HttpResponse
health = json_response 200 (fields (("status", "ok") ∷ []))

-- The routes of `create_app`; each takes GET only.
pub data Route : Type 0 where
  healthz : Route
  all_requests : Route
  one_request : String → Route
  one_stream : String → Route

abbrev is_empty : String → Bool
is_empty String.[] = Bool.true
is_empty (String.◌∷◌ c s) = Bool.false

-- The route of a path, given as its segments; Starlette answers where there is none.
unfoldable pub route_of : List String → Option Route
route_of (a ∷ []) = if str_eq a "healthz" then some healthz else none
route_of (a ∷ b ∷ []) = if str_eq a "v1" && str_eq b "requests" then some all_requests else none
route_of (a ∷ b ∷ id ∷ []) =
    if is_empty id
    then none
    else if str_eq a "v1" && str_eq b "requests"
    then some (one_request id)
    else none
route_of (a ∷ b ∷ id ∷ c ∷ []) =
    if is_empty id
    then none
    else if str_eq a "v1" && str_eq b "requests" && str_eq c "stream"
    then some (one_stream id)
    else none
route_of _ = none

-- `isoformat` is that of a `datetime`.
module _ (isoformat : ℕ → String) where
  -- `_serialize_view`
  unfoldable pub serialize_view : RequestView → Fields
  serialize_view v =
      ("request_id", v.request_id)
      ∷ ("status", status_text v.status)
      ∷ ("expires_at", isoformat v.expires_at)
      ∷ []

  unfoldable pub serialize_views : List RequestView → List Fields
  serialize_views [] = []
  serialize_views (v ∷ vs) = serialize_view v ∷ serialize_views vs

  unfoldable pub list_response : Response (List RequestView) → HttpResponse
  list_response (found views) = json_response 200 (requests (serialize_views views))
  list_response not_found = not_found_response
  list_response unavailable = unavailable_response

  unfoldable pub view_response : Response RequestView → HttpResponse
  view_response (found v) = json_response 200 (fields (serialize_view v))
  view_response not_found = not_found_response
  view_response unavailable = unavailable_response

  -- `ipc_chunks` of a source, and the calls of others before each check of the stream
  module _ (env : Environment) (chunks : SourceRef → Streamed) (waits : ℕ → List Call) where
    -- the answer of `stream_request`, with its stream run to the end
    unfoldable pub stream_response : String → Response SourceRef → Broker → HttpResponse × Broker
    stream_response request_id not_found b = (not_found_response, b)
    stream_response request_id unavailable b = (unavailable_response, b)
    stream_response request_id (found source) b =
        let (frames, b') = framed_stream env request_id source waits (chunks source) b in
        (
          record {
            status_code = 200;
            headers = response_headers;
            media_type = some stream_content_type;
            body = stream frames;
          },
          b',
        )

    -- the handler of each route
    unfoldable pub answer : Route → Broker → HttpResponse × Broker
    answer healthz b = (health, b)
    answer all_requests b = let (r, b') = Stream.list_requests env b in (list_response r, b')
    answer (one_request id) b = let (r, b') = Stream.open_request env id b in (view_response r, b')
    answer (one_stream id) b =
        let (r, b') = Stream.stream_request env id b in stream_response id r b'
