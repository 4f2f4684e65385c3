-- ===== src/Viewer/Answers.antt =====
-- What the routes may answer, and when the stream of a result is given.
use snowglobe.Prelude.{ℕ, String, ◌≡◌, ◌≢◌, ◌⊎◌, refl, true, List, arith, inl, inr, Option-cases}
use snowglobe.Exec.{ok, err, Error, Result-cases, request_unavailable}
use snowglobe.Broker.Records.{SourceRef, lookup, is_live, is_complete}
use snowglobe.Broker.State.{Broker, Environment, expire, locked_record}
use snowglobe.Broker.Bodies.{completed_source}
use snowglobe.Broker.Access.{Available, open_source-Available}
use snowglobe.Broker.Methods
use snowglobe.Broker.History.{Call}
use snowglobe.Arrow.Chunks.{Streamed}
use snowglobe.Viewer.Stream.{Response, not_found, unavailable, response_of, stream_request}
use snowglobe.Viewer.Routes.{
  HttpResponse, one_stream, not_found_response, unavailable_response, stream_response, answer,
}

-- What an error is answered by.
abbrev Refusal : Error → HttpResponse → Type 0
Refusal e r =
    ((e ≡ request_unavailable) × (r ≡ not_found_response))
    ⊎ ((e ≢ request_unavailable) × (r ≡ unavailable_response))

abbrev Answered : {A : Type 0} → Error → Response A → Type 0
Answered e r =
    ((e ≡ request_unavailable) × (r ≡ not_found)) ⊎ ((e ≢ request_unavailable) × (r ≡ unavailable))

-- With a clock that has a time zone, a result is either opened or not available.
open_source-cases :
    (env : Environment) (id : String) (b : Broker)
    → (env.clock b.reads).is_aware ≡ true
    → ((s : SourceRef) × ((Methods.open_source env id b).0 ≡ ok s))
      ⊎ ((Methods.open_source env id b).0 ≡ err request_unavailable)
unfolding Methods.open_source locked_record completed_source is_complete expire is_live
open_source-cases env id b aware = elim (Option-cases (lookup id b.records)) [
  | inl e ↦ inr (ground arith)
  | inr (r, e) ↦ elim (Result-cases (Methods.open_source env id b).0) [
    | inl (s, f) ↦ inl (s, f)
    | inr (x, f) ↦ inr (ground arith)
  ]
]

module _ (isoformat : ℕ → String) (env : Environment) (chunks : SourceRef → Streamed)
    (waits : ℕ → List Call) where
  -- With a clock that has a time zone, the route of a stream succeeds exactly where the request is complete, holds
  -- a source and has not expired; otherwise it says that nothing was found.
  pub stream_route-Available :
      (id : String) (b : Broker)
      → (env.clock b.reads).is_aware ≡ true
      → ((s : SourceRef) × Available env id b s
          × ((answer isoformat env chunks waits (one_stream id) b).0.status_code ≡ 200))
        ⊎ (((s : SourceRef) → ¬ Available env id b s)
            × ((answer isoformat env chunks waits (one_stream id) b).0 ≡ not_found_response))
  unfolding answer stream_request response_of stream_response
  stream_route-Available id b aware = elim (open_source-cases env id b aware) [
    | inl (s, e) ↦ inl (
      s,
      (open_source-Available env id b s).0 e,
      rw (e, answer, stream_request, response_of, stream_response) refl,
    )
    | inr e ↦ inr (
      λ s a. cc (e, (open_source-Available env id b s).1 a),
      rw (e, answer, stream_request, response_of, stream_response) refl,
    )
  ]
