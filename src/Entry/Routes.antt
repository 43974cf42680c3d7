-- ===== src/Entry/Routes.antt =====
-- The routes that main.go registers: the path of each, who may use it, and its handler.
--
-- A request is the route that the router has chosen with what the parsers leave of the rest: the
-- method, the parameters and the body.
use host_container.World.{Word, FilePath, Bigint}
use host_container.Text.{codes}
use host_container.Http.{Method}
use host_container.Accounts.{LoginRequest, RegisterRequest, ResetRequest}
use host_container.Handlers.{CreateRequest}
use host_container.Handlers.Files.{WriteRequest, Upload}
use host_container.Notices.Stream
use host_container.Networks.Handlers.{ConnectRequest}
use host_container.Sockets.Upgrade.{Handshake}
use host_container.Sockets.Metrics.{StatsResponse}
use host_container.Sockets.Terminal
use host_container.Sockets.Terminal.{ResizeMsg}
use host_container.Sockets.Logs
use host_container.Sockets.Logs.{LogEntry}
use host_container.Prelude.{Option, String, List, Bool}

-- Each route with what its handler reads of the request.
pub data Route : Type 0 where
  ping health plans : Route
  login : Method → Option LoginRequest → Route
  register : Method → Option RegisterRequest → Route
  refresh : Method → Route
  verify_email resend_verification forgot_password : Method → Option String → Route
  reset_password : Method → Option ResetRequest → Route
  user_me user_containers user : Method → Route
  containers : Method → Option CreateRequest → Route
  container_get container_start container_stop : Method → String → Route
  container_remove : Method → String → String → Route
  container_exec : Method → String → Option (List Word) → Route
  tree_folder : Method → String → Route
  file_read file_download : Method → String → FilePath → Route
  file_write : Method → String → Option WriteRequest → Route
  file_upload : Method → String → Upload → Route
  ws_metrics : String → Handshake → List (StatsResponse × Bool) → Route
  ws_terminal : String → Handshake → List Terminal.Wake → Route
  ws_logs : String → Handshake → List (Logs.Stream × Word) → Route
  templates template : Method → String → Route
  notification_stream : List Stream.Wake → Route
  notifications read_all : Method → Route
  api_keys : Method → Option String → Route
  api_key : Method → String → Route
  networks : Method → Option String → Route
  network : Method → String → Route
  network_connect : Method → String → Option ConnectRequest → Route
  network_disconnect : Method → String → String → Route
  container_health health_reset : Method → String → Route
  admin_stats : Route
  admin_users : Option Bigint → String → Route
  admin_user : Method → String → Route
  admin_plan : Method → String → Option String → Route

abbrev pub path_of : Route → Word
path_of ping = codes "/ping"
path_of (login _ _) = codes "/auth/login"
path_of (register _ _) = codes "/auth/register"
path_of (refresh _) = codes "/auth/refresh"
path_of (verify_email _ _) = codes "/auth/verify-email"
path_of (resend_verification _ _) = codes "/auth/resend-verification"
path_of (forgot_password _ _) = codes "/auth/forgot-password"
path_of (reset_password _ _) = codes "/auth/reset-password"
path_of health = codes "/health"
path_of (user_me _) = codes "/user/me"
path_of (user_containers _) = codes "/user/containers"
path_of (user _) = codes "/user"
path_of (containers _ _) = codes "/containers"
path_of (container_get _ _) = codes "/containers/get"
path_of (container_start _ _) = codes "/containers/start"
path_of (container_stop _ _) = codes "/containers/stop"
path_of (container_remove _ _ _) = codes "/containers/remove"
path_of (container_exec _ _ _) = codes "/containers/exec"
path_of (tree_folder _ _) = codes "/containers/showTreeFolder"
path_of (file_read _ _ _) = codes "/containers/file/read"
path_of (file_write _ _ _) = codes "/containers/file/write"
path_of (file_upload _ _ _) = codes "/containers/file/upload"
path_of (file_download _ _ _) = codes "/containers/file/download"
path_of (ws_metrics _ _ _) = codes "/ws"
path_of (ws_terminal _ _ _) = codes "/ws/terminal/{project_id}"
path_of (ws_logs _ _ _) = codes "/ws/logs/{project_id}"
path_of (templates _ _) = codes "/templates"
path_of (template _ _) = codes "/templates/{id}"
path_of (notification_stream _) = codes "/notifications/stream"
path_of (notifications _) = codes "/notifications"
path_of (read_all _) = codes "/notifications/read-all"
path_of (api_keys _ _) = codes "/api-keys"
path_of (api_key _ _) = codes "/api-keys/{id}"
path_of (networks _ _) = codes "/networks"
path_of (network _ _) = codes "/networks/{id}"
path_of (network_connect _ _ _) = codes "/networks/{id}/connect"
path_of (network_disconnect _ _ _) = codes "/networks/{id}/containers/{projectId}"
path_of (container_health _ _) = codes "/containers/health"
path_of (health_reset _ _) = codes "/containers/health/reset"
path_of admin_stats = codes "/admin/stats"
path_of (admin_users _ _) = codes "/admin/users"
path_of (admin_user _ _) = codes "/admin/users/{id}"
path_of (admin_plan _ _ _) = codes "/admin/users/{id}/plan"
path_of plans = codes "/plans"

-- Which middleware main.go puts before a handler: none, `AuthMiddleware`, `auth.Middleware`, or
-- `auth.Middleware` and `auth.AdminOnly`.
pub data Access : Type 0 where
  everyone token_only token_or_key admin : Access

unfoldable pub access_of : Route → Access
access_of ping = everyone
access_of (login _ _) = everyone
access_of (register _ _) = everyone
access_of (refresh _) = everyone
access_of (verify_email _ _) = everyone
access_of (resend_verification _ _) = everyone
access_of (forgot_password _ _) = everyone
access_of (reset_password _ _) = everyone
access_of health = everyone
access_of (user_me _) = token_only
access_of (user_containers _) = token_only
access_of (user _) = token_only
access_of (containers _ _) = token_only
access_of (container_get _ _) = token_only
access_of (container_start _ _) = token_only
access_of (container_stop _ _) = token_only
access_of (container_remove _ _ _) = token_only
access_of (container_exec _ _ _) = token_only
access_of (tree_folder _ _) = token_only
access_of (file_read _ _ _) = token_only
access_of (file_write _ _ _) = token_only
access_of (file_upload _ _ _) = token_only
access_of (file_download _ _ _) = token_only
access_of (ws_metrics _ _ _) = token_only
access_of (ws_terminal _ _ _) = token_only
access_of (ws_logs _ _ _) = token_only
access_of (templates _ _) = everyone
access_of (template _ _) = everyone
access_of (notification_stream _) = token_only
access_of (notifications _) = token_only
access_of (read_all _) = token_only
access_of (api_keys _ _) = token_or_key
access_of (api_key _ _) = token_or_key
access_of (networks _ _) = token_or_key
access_of (network _ _) = token_or_key
access_of (network_connect _ _ _) = token_or_key
access_of (network_disconnect _ _ _) = token_or_key
access_of (container_health _ _) = token_or_key
access_of (health_reset _ _) = token_or_key
access_of admin_stats = admin
access_of (admin_users _ _) = admin
access_of (admin_user _ _) = admin
access_of (admin_plan _ _ _) = admin
access_of plans = everyone
