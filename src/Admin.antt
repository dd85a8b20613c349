-- ===== src/Admin.antt =====
-- admin/server.go: the admin interface over the registry and the refresher that it is given. Spans and
-- logs are left out. A handler is one action; what the multiplexer does with a request that matches no
-- route is not under src/.
pub mod Status
use sidecar_agent.Prelude.{
  ℕ, zero, suc, ◌*◌, ◌^◌, Bool, Option, none, some, List, [], ◌∷◌, ◌++◌, if◌then◌else◌,
}
use sidecar_agent.Text.{Text, codes}
use sidecar_agent.Model.Error.{Error, external, Result, ok, err}
use sidecar_agent.Model.Request.{RegisterRequest, DrainRequest, DeregisterRequest}
use sidecar_agent.Model.Service.{LocalService}
use sidecar_agent.Xds.Snapshot.{Summary}

-- What is encoded as JSON.
pub data Body : Type 0 where
  service : LocalService → Body
  services : List LocalService → Body
  error : Error → Body
  status_ok : Body
  snapshot_summary : Summary → Body
  empty_object : Body

-- `writeJSON`
pub record Response : Type 0 where
  pub status : ℕ
  pub body : Body

abbrev pub write_json : ℕ → Body → Response
write_json status body = record { status = status; body = body }

-- `writeError`
abbrev pub write_error : ℕ → Error → Response
write_error status e = write_json status (error e)

-- `http.StatusOK`, `http.StatusBadRequest` and `http.StatusInternalServerError`
abbrev pub status_200 : ℕ
status_200 = 200

abbrev pub bad_request : ℕ
bad_request = 400

abbrev pub internal_server_error : ℕ
internal_server_error = 500

pub data Route : Type 0 where
  to_register to_drain to_deregister to_healthz to_watch to_debug_services to_debug_xds to_metrics :
      Route

-- The patterns of `New`, which has a metrics handler or not.
unfoldable pub routes : Bool → List (Text × Route)
routes has_metrics =
    (codes "POST /register", to_register)
    ∷ (codes "POST /drain", to_drain)
    ∷ (codes "POST /deregister", to_deregister)
    ∷ (codes "GET /healthz", to_healthz)
    ∷ (codes "GET /watch", to_watch)
    ∷ (codes "GET /debug/services", to_debug_services)
    ∷ (codes "GET /debug/xds", to_debug_xds)
    ∷ (if has_metrics then (codes "GET /metrics", to_metrics) ∷ [] else [])

-- `http.Server`, as far as `New` sets it.
pub record HttpServer : Type 0 where
  pub addr : Text
  pub handler : List (Text × Route)
  -- nanoseconds
  pub read_header_timeout : ℕ

-- The interface `Registry`, over what it changes.
pub record Registry (W : Type 0) : Type 0 where
  pub register : RegisterRequest → W → Result LocalService × W
  pub drain : DrainRequest → W → Result LocalService × W
  pub deregister : DeregisterRequest → W → Result LocalService × W
  pub local_services : W → List LocalService

-- The interface `Refresher`, by its `RefreshNow`.
abbrev pub Refresher : Type 0 → Type 0
Refresher W = W → Result (Unit {0}) × W

-- `Server`; the xDS server by its `Summary`. A nil pointer is `none`.
pub record Server (W : Type 0) : Type 0 where
  pub registry : Registry W
  pub refresher : Option (Refresher W)
  pub xds_server : Option (W → Summary)
  pub http_server : HttpServer

-- `New`
unfoldable pub new_server :
    {W : Type 0}
    → Text
    → Registry W
    → Option (Refresher W)
    → Option (W → Summary)
    → (has_metrics : Bool) → Server W
new_server listen_address registry refresher xds_server has_metrics = record {
  registry = registry;
  refresher = refresher;
  xds_server = xds_server;
  http_server = record {
    addr = listen_address;
    handler = routes has_metrics;
    read_header_timeout = 5 * 10 ^ 9;
  };
}

-- The error with which `ListenAndServe` returns, which is never nil.
pub data Served : Type 0 where
  server_closed : Served
  failed : Error → Served

-- `Start`
unfoldable pub start : (HttpServer → Served) → {W : Type 0} → Server W → Option Error
start listen_and_serve s = elim (listen_and_serve s.http_server) [
  | server_closed ↦ none
  | failed e ↦ some e
]

-- `Shutdown`
unfoldable pub shutdown : (HttpServer → Option Error) → {W : Type 0} → Server W → Option Error
shutdown http_shutdown s = http_shutdown s.http_server

-- After `RefreshNow`.
abbrev pub after_refresh : {W : Type 0} → LocalService → Result (Unit {0}) × W → Response × W
after_refresh v (err e, w) = (write_error internal_server_error e, w)
after_refresh v (ok u, w) = (write_json status_200 (service v), w)

-- `handleWatch`: what is written to a stream that can be flushed, before a number of ticks and the end
-- of the request.
unfoldable pub heartbeats : ℕ → List Text
heartbeats zero = []
heartbeats (suc n) = codes ": heartbeat\n\n" ∷ heartbeats n

unfoldable pub handle_watch : Bool → ℕ → Result (List Text)
handle_watch flusher ticks =
    if flusher
    then ok (codes "event: connected\n" ∷ codes "data: ok\n\n" ∷ heartbeats ticks)
    else err (external (codes "streaming is not supported"))

module _ {W : Type 0} (s : Server W) where
  -- `RefreshNow`
  unfoldable pub refresh_now : Refresher W
  refresh_now w = elim s.refresher [ none ↦ (ok tt, w) | some refresh ↦ refresh w ]

  abbrev pub after_operation : Result LocalService × W → Response × W
  after_operation (err e, w) = (write_error bad_request e, w)
  after_operation (ok v, w) = after_refresh v (refresh_now w)

  -- What the three handlers do with a body that was decoded, or was not.
  unfoldable pub handle :
      {R : Type 0} → Result R → (R → W → Result LocalService × W) → W → Response × W
  handle (err e) operation w = (write_error bad_request e, w)
  handle (ok payload) operation w = after_operation (operation payload w)

  -- `handleRegister`
  unfoldable pub handle_register : Result RegisterRequest → W → Response × W
  handle_register payload = handle payload s.registry.register

  -- `handleDrain`
  unfoldable pub handle_drain : Result DrainRequest → W → Response × W
  handle_drain payload = handle payload s.registry.drain

  -- `handleDeregister`
  unfoldable pub handle_deregister : Result DeregisterRequest → W → Response × W
  handle_deregister payload = handle payload s.registry.deregister

  -- `handleDebugServices`
  unfoldable pub handle_debug_services : W → Response
  handle_debug_services w = write_json status_200 (services (s.registry.local_services w))

  -- `handleDebugXDS`
  unfoldable pub handle_debug_xds : W → Response
  handle_debug_xds w = elim s.xds_server [
    | none ↦ write_json status_200 empty_object
    | some summary ↦ write_json status_200 (snapshot_summary (summary w))
  ]

-- `handleHealthz`
abbrev pub handle_healthz : Response
handle_healthz = write_json status_200 status_ok

-- A request that matches a route, with its body for the handlers that decode one.
pub data Request : Type 0 where
  post_register : Result RegisterRequest → Request
  post_drain : Result DrainRequest → Request
  post_deregister : Result DeregisterRequest → Request
  get_healthz get_debug_services get_debug_xds get_metrics : Request
  get_watch : (flusher : Bool) (ticks : ℕ) → Request

-- A response, a stream, or the page of the metrics library.
pub data Answer : Type 0 where
  answered : Response → Answer
  streamed : List Text → Answer
  metrics_page : Answer

abbrev pub answer : {W : Type 0} → Response × W → Answer × W
answer (r, w) = (answered r, w)

-- What `handleWatch` leaves the client with.
unfoldable pub watch_answer : Result (List Text) → Answer
watch_answer (ok written) = streamed written
watch_answer (err e) = answered (write_error internal_server_error e)

-- The handler that `New` gives to each route.
unfoldable pub serve : {W : Type 0} → Server W → Request → W → Answer × W
serve s (post_register payload) w = answer (handle_register s payload w)
serve s (post_drain payload) w = answer (handle_drain s payload w)
serve s (post_deregister payload) w = answer (handle_deregister s payload w)
serve s get_healthz w = (answered handle_healthz, w)
serve s get_debug_services w = (answered (handle_debug_services s w), w)
serve s get_debug_xds w = (answered (handle_debug_xds s w), w)
serve s get_metrics w = (metrics_page, w)
serve s (get_watch flusher ticks) w = (watch_answer (handle_watch flusher ticks), w)
