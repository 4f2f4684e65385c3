-- ===== src/Viewer/Contract.antt =====
-- What the routes owe: their answers, written out without the constants of the code.
use snowglobe.Prelude.{ℕ, String, ◌≡◌, ◌≢◌, some, List, [], ◌∷◌}
use snowglobe.Exec.{Result, ok, err, Error, request_unavailable}
use snowglobe.Broker.Records.{
  RequestStatus, pending, complete, failed, cancelled, expired, RequestView, SourceRef,
}
use snowglobe.Broker.State.{Broker, Environment}
use snowglobe.Broker.Methods
use snowglobe.Arrow.Types.{Bytes}
use snowglobe.Viewer.Routes.{
  Fields, HttpResponse, fields, requests, stream, Route, healthz, all_requests, one_request,
  one_stream,
}

-- An answer with this status and this object as its content.
abbrev pub Says : ℕ → String → String → HttpResponse → Type 0
Says code name s r = (r.status_code ≡ code) × (r.body ≡ fields ((name, s) ∷ []))

-- The error of an answer: 404 where the broker says that there is no such request, else 503.
abbrev pub Refuses : Error → HttpResponse → Type 0
Refuses e r =
    (e ≡ request_unavailable → Says 404 "error" "not_found" r)
    × (e ≢ request_unavailable → Says 503 "error" "service_unavailable" r)

abbrev pub StatusName : RequestStatus → String → Type 0
StatusName pending s = s ≡ "pending"
StatusName complete s = s ≡ "complete"
StatusName failed s = s ≡ "failed"
StatusName cancelled s = s ≡ "cancelled"
StatusName expired s = s ≡ "expired"

-- The three fields of a view, and no others.
abbrev pub Shows : (ℕ → String) → RequestView → Fields → Type 0
Shows isoformat v f =
    (name : String) × StatusName v.status name
    × (f
        ≡ ("request_id", v.request_id)
          ∷ ("status", name)
          ∷ ("expires_at", isoformat v.expires_at)
          ∷ [])

abbrev pub ShowsAll : (ℕ → String) → List RequestView → List Fields → Type 0
ShowsAll isoformat [] [] = Unit
ShowsAll isoformat (v ∷ vs) (f ∷ fs) = Shows isoformat v f × ShowsAll isoformat vs fs
ShowsAll isoformat _ _ = ⊥

abbrev pub ListAnswer : (ℕ → String) → Result (List RequestView) → HttpResponse → Type 0
ListAnswer isoformat (ok vs) r =
    (r.status_code ≡ 200) × ((fs : List Fields) × (r.body ≡ requests fs) × ShowsAll isoformat vs fs)
ListAnswer isoformat (err e) r = Says 503 "error" "service_unavailable" r

abbrev pub ViewAnswer : (ℕ → String) → Result RequestView → HttpResponse → Type 0
ViewAnswer isoformat (ok v) r =
    (r.status_code ≡ 200) × ((f : Fields) × (r.body ≡ fields f) × Shows isoformat v f)
ViewAnswer isoformat (err e) r = Refuses e r

abbrev pub StreamAnswer : Result SourceRef → HttpResponse → Type 0
StreamAnswer (ok s) r =
    (r.status_code ≡ 200)
    × (r.media_type ≡ some "application/vnd.snowglobe.arrow-stream")
    × ((frames : List Bytes) × (r.body ≡ stream frames))
StreamAnswer (err e) r = Refuses e r

-- The answer of a route, by what its call of the broker gives.
abbrev pub IsAnswer : (ℕ → String) → Environment → Route → Broker → HttpResponse → Type 0
IsAnswer isoformat env healthz b r = Says 200 "status" "ok" r
IsAnswer isoformat env all_requests b r = ListAnswer isoformat (Methods.list_requests env b).0 r
IsAnswer isoformat env (one_request id) b r =
    ViewAnswer isoformat (Methods.get_request env id b).0 r
IsAnswer isoformat env (one_stream id) b r = StreamAnswer (Methods.open_source env id b).0 r

-- An answer that is not to be stored, and says what the route may say.
pub record IsClosedAnswer (isoformat : ℕ → String) (env : Environment) (route : Route) (b : Broker)
    (r : HttpResponse) : Type 0 where
  pub unstored : r.headers ≡ ("Cache-Control", "no-store") ∷ []
  pub says : IsAnswer isoformat env route b r

pub ViewAnswer-err :
    (isoformat : ℕ → String) (res : Result RequestView) (e : Error) (r : HttpResponse)
    → res ≡ err e
    → Refuses e r
    → ViewAnswer isoformat res r
ViewAnswer-err isoformat res e r h refuses = rw h refuses

pub StreamAnswer-err :
    (res : Result SourceRef) (e : Error) (r : HttpResponse)
    → res ≡ err e
    → Refuses e r
    → StreamAnswer res r
StreamAnswer-err res e r h refuses = rw h refuses
