-- ===== src/Entry/Stack.antt =====
-- The middlewares that main.go puts before every route: middlware/recovery.go, middlware/ratelimit.go,
-- middlware/logging.go and the instrumentation, in this order, inside CORS.
--
-- OpenTelemetry's and Prometheus's wrappers are one parameter, `instrument`, which says what the writer
-- that they hand on can do.
use host_container.World.{World, Word}
use host_container.Http.{Response, message, no_content}
use host_container.Cors.{cors}
use host_container.RateLimit.{Bucket, Visitors, ClientRequest, client_ip, allow_request}
use host_container.Prelude.{false, String, Option, Bool, some, ℕ, if◌then◌else◌, none, not}

-- What a response writer can do besides writing: `http.Hijacker` and `http.Flusher`.
pub record Writer : Type 0 where
  pub hijacks : Bool
  pub flushes : Bool

-- `responseWriter` embeds the interface `http.ResponseWriter` and adds the method `Hijack`.
unfoldable pub response_writer : Writer → Writer
response_writer w = record { hijacks = w.hijacks; flushes = false }

-- `prometheusMiddleware` leaves a request for a WebSocket alone.
unfoldable pub prometheus_writer : (Writer → Writer) → Bool → Writer → Writer
prometheus_writer instrument is_websocket w = if is_websocket then w else instrument w

-- The writer that a route's handler is given; the recovery and the rate limit hand on their own.
unfoldable pub routed_writer : (Writer → Writer) → Bool → Writer → Writer
unfolding response_writer prometheus_writer
routed_writer instrument is_websocket w =
    prometheus_writer instrument is_websocket (response_writer w)

-- How a handler ends: with a reply, or in a panic, with the status that was sent before, if one was.
pub data Ran (A : Type 0) : Type 0 where
  replied : Response A → Ran A
  panicked : Option ℕ → Ran A

-- What the client is answered. A status that was sent stays.
unfoldable pub recovered : {A : Type 0} → Ran A → Response A
recovered (replied r) = r
recovered (panicked none) = record { status = 500; body = message "internal server error" }
recovered (panicked (some s)) = record { status = s; body = message "internal server error" }

-- The status that `RequestLogger` writes to the log. A panic goes past it.
unfoldable pub logged_status : {A : Type 0} → Ran A → Option ℕ
logged_status (replied r) = some r.status
logged_status (panicked s) = none

-- The rest of a request: its address, its origin, and whether its method is OPTIONS.
pub record Visit : Type 0 where
  pub client : ClientRequest
  pub origin : Word
  pub is_options : Bool

pub record Answered (A : Type 0) : Type 0 where
  pub response : Response A
  pub allow_origin : Option Word
  pub logged_as : Option ℕ

module _ {L : Type 0} (bucket : Bucket L) (split_host_port : String → Option String)
    (raw : Word) where
  -- What a route does with the world, behind the whole stack. The clock is that of the limiter.
  unfoldable pub through_stack :
      {A : Type 0}
      → Visit
      → ℕ
      → (World → Ran A × World)
      → Visitors L × World
      → Answered A × (Visitors L × World)
  through_stack v now route (vs, w) =
      let c = cors raw v.is_options v.origin in
      let allowed = c.allow_origin in
      let ip = client_ip split_host_port v.client in
      let (admitted, vs') = allow_request bucket ip now vs in
      if not c.passed_on
      then (
        record {
          response = record { status = 204; body = no_content };
          allow_origin = allowed;
          logged_as = none;
        },
        (vs, w),
      )
      else if not admitted
      then (
        record {
          response = record {
            status = 429;
            body = message "rate limit exceeded, please slow down";
          };
          allow_origin = allowed;
          logged_as = none;
        },
        (vs', w),
      )
      else let (ran, w') = route w in
        (
          record {
            response = recovered ran;
            allow_origin = allowed;
            logged_as = logged_status ran;
          },
          (vs', w'),
        )
