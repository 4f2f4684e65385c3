-- ===== src/Tests/Routes.antt =====
-- The routes of the viewer on concrete requests.
use snowglobe.Prelude.{ℕ, String, ◌≡◌, ◌⊎◌, refl, some, none, [], ◌∷◌}
use snowglobe.Broker.Records.{SourceRef}
use snowglobe.Broker.Access.{Available}
use snowglobe.Arrow.Chunks.{Streamed}
use snowglobe.Viewer.Stream.{response_of, list_requests, open_request, stream_request}
use snowglobe.Viewer.Routes.{
  one_request, one_stream, route_of, fields, json_response, not_found_response, serialize_view,
  serialize_views, list_response, view_response, stream_response, answer,
}
use snowglobe.Viewer.Answers.{stream_route-Available}
use snowglobe.Tests.Broker.{ticking}
use snowglobe.Tests.Viewer.{viewer_program, published, two_chunks, undisturbed}

routes_program : Unit {0}
unfolding viewer_program response_of list_requests open_request stream_request route_of
    serialize_view serialize_views list_response view_response stream_response answer
routes_program = tt

abbrev isoformat : ℕ → String
isoformat n = "0001-01-01T00:00:00.001050+00:00"

abbrev sources : SourceRef → Streamed
sources s = two_chunks

routed : route_of ("v1" ∷ "requests" ∷ "t" ∷ "stream" ∷ []) ≡ some (one_stream "t")
unfolding routes_program
routed = refl

unrouted : route_of ("v1" ∷ "requests" ∷ "" ∷ []) ≡ none
unfolding routes_program
unrouted = refl

shown :
    (answer isoformat ticking sources undisturbed (one_request "t") published).0
    ≡ json_response 200 (
        fields (
          ("request_id", "t")
          ∷ ("status", "complete")
          ∷ ("expires_at", "0001-01-01T00:00:00.001050+00:00")
          ∷ []))
unfolding routes_program
shown = refl

missing :
    (answer isoformat ticking sources undisturbed (one_stream "u") published).0 ≡ not_found_response
unfolding routes_program
missing = refl

stream_route-Available_example :
    ((s : SourceRef) × Available ticking "t" published s
      × ((answer isoformat ticking sources undisturbed (one_stream "t") published).0.status_code
          ≡ 200))
    ⊎ (((s : SourceRef) → ¬ Available ticking "t" published s)
        × ((answer isoformat ticking sources undisturbed (one_stream "t") published).0
            ≡ not_found_response))
stream_route-Available_example =
    stream_route-Available isoformat ticking sources undisturbed "t" published refl
