-- ===== src/Entry/Serve.antt =====
-- What a route's request comes to: its middleware, then its handler, with the parts that main.go hands
-- to it.
pub mod Closed
pub mod Unstreamed
use mathlib.Core.Option
use host_container.Bus.{Bus}
use host_container.World.{Word, FilePath, Outside, World, Error, pool}
use host_container.Jwt.{Jwt}
use host_container.Http.{
  Method, get, post, Body, message, failed, no_content, payload, Response, Handler, respond,
}
use host_container.Auth.{Request, middleware, admin_only}
use host_container.Auth.Plain.{auth_middleware}
use host_container.Accounts
use host_container.Accounts.Links
use host_container.Accounts.{Validator}
use host_container.Handlers
use host_container.Handlers.Files
use host_container.Notices
use host_container.Notices.Stream
use host_container.ApiKeys
use host_container.ApiKeys.{NewKey}
use host_container.ApiKeys.Listing
use host_container.ApiKeys.Listing.{ApiKeyItem}
use host_container.Networks.Handlers as NetworkHandlers
use host_container.Networks.Handlers.{user_or_empty, list}
use host_container.Admin
use host_container.Templates
use host_container.Templates.{Json}
use host_container.Sockets.Upgrade.{Outcome, answered, not_upgraded, failed as ended_by, ended}
use host_container.Sockets.Metrics
use host_container.Sockets.Metrics.{Streamed}
use host_container.Sockets.Terminal
use host_container.Sockets.Terminal.{ResizeMsg}
use host_container.Sockets.Logs
use host_container.Sockets.Logs.{LogEntry}
use host_container.Entry.Stack.{Writer, routed_writer}
use host_container.Entry.Pages.{Page, ping_page, health_page, plans_page}
use host_container.Entry.Routes.{
  Access, everyone, token_only, token_or_key, admin, access_of, Route, ping, health, plans, login,
  register, refresh, verify_email, resend_verification, forgot_password, reset_password, user_me,
  user_containers, user, containers, container_get, container_start, container_stop,
  container_remove, container_exec, tree_folder, file_read, file_download, file_write, file_upload,
  ws_metrics, ws_terminal, ws_logs, templates, template, notification_stream, notifications,
  read_all, api_keys, api_key, networks, network, network_connect, network_disconnect,
  container_health, health_reset, admin_stats, admin_users, admin_user, admin_plan,
}
use mathlib.Core.Option.{Option}
use host_container.Prelude.{List, Bool, String, false, ℕ, none, true, some}

-- What the server is built from: the environment's settings and the libraries.
pub record Config : Type 0 where
  pub out : Outside
  pub jwt : Jwt
  pub hash_key : String → String
  pub hash_token : String → String
  pub validator : Validator
  pub valid_key_name : String → Bool
  pub verify_password : String → String → Bool
  pub base_path : FilePath
  pub auto_stop_timeout : ℕ
  pub like : String → String → Bool
  pub lower : String → String
  pub to_lower : String → String
  pub today : ℕ
  pub scan_time : ℕ → Option String
  pub json : Json
  pub collation : String → String → Bool
  pub allowed_origins : Word
  pub unmarshal_resize : Word → Option ResizeMsg
  pub log_time : ℕ → ℕ
  pub log_accepts : List LogEntry → Bool
  pub writer : Writer  -- the one of Go's HTTP server
  pub instrument : Writer → Writer

-- What the connections of the sockets end with.
pub data Session : Type 0 where
  metrics : Streamed → Session
  log_entries : List LogEntry → Session
  shell : Session

pub data Reply : Type 0 where
  page : Page → Reply
  account : Accounts.Payload → Reply
  container : Handlers.Payload → Reply
  notice : Notices.Payload → Reply
  streamed : List Stream.Frame → Reply
  new_key : NewKey → Reply
  keys_listed : List ApiKeyItem → Reply
  key_deleted : Reply
  network_reply : NetworkHandlers.Payload → Reply
  administration : Admin.Payload → Reply
  catalogue : Templates.Payload → Reply
  session : Session → Reply
  nothing_written : Reply

abbrev pub map_body : {A : Type 0} → (A → Reply) → Body A → Body Reply
map_body f (message m) = message m
map_body f (failed e) = failed e
map_body f no_content = no_content
map_body f (payload a) = payload (f a)

-- The same reply, as one of the server's.
abbrev pub via : {A : Type 0} → (A → Reply) → Handler A → Handler Reply
via f h w = let (r, w') = h w in (record { status = r.status; body = map_body f r.body }, w')

-- A connection that was made is answered 101, whatever happens on it. Where the upgrade fails the
-- library answers 403 or 400.
abbrev pub connected : {A : Type 0} → (A → Session) → (World → Outcome A × World) → Handler Reply
connected f h w =
    let (o, w') = h w in
    (
      elim o [
        | answered status reason ↦ record { status = status; body = message reason }
        | not_upgraded ↦ record { status = 403; body = no_content }
        | ended_by e ↦ record { status = 101; body = failed e }
        | ended a ↦ record { status = 101; body = payload (session (f a)) }
      ],
      w',
    )

-- The stream of the notifications works on the bus.
abbrev pub opened : Bool → Option String → List Stream.Wake → Handler Reply
opened flushes user_id ws w =
    let (o, b) = Stream.stream user_id flushes ws w.bus in
    (
      elim o [
        | Stream.unauthorized ↦ record { status = 401; body = message "unauthorized" }
        | Stream.not_supported ↦ record {
          status = 500;
          body = message "streaming not supported by server";
        }
        | Stream.panicked ↦ record { status = 500; body = message "internal server error" }
        | Stream.streamed frames ↦ record { status = 200; body = payload (streamed frames) }
      ],
      record w { bus = b },
    )

module _ (cfg : Config) where
  -- `/containers`: a GET is answered with nothing at all.
  unfoldable pub containers_route : Method → Option Handlers.CreateRequest → Handler Reply
  containers_route get body = respond 200 (payload nothing_written)
  containers_route post body = via container (Handlers.create cfg.out cfg.base_path post body)
  containers_route _ body = respond 405 (message "Method not allowed")

  -- `Dispatch` of service/apiKeyHandler.go
  unfoldable pub api_keys_route : Method → Option String → Option String → Handler Reply
  api_keys_route get user_id body =
      via keys_listed (Listing.list_keys cfg.out cfg.scan_time user_id)
  api_keys_route post user_id body =
      via new_key (ApiKeys.create_key cfg.out cfg.hash_key cfg.valid_key_name user_id body)
  api_keys_route _ user_id body = respond 405 (message "method not allowed")

  -- The handler of a route, given the user id that the context holds, if it holds one.
  pub handle : Route → Request → Option String → Handler Reply
  handle ping r u = via page ping_page
  handle health r u = via page health_page
  handle plans r u = via page (plans_page cfg.out)
  handle (login m body) r u =
      via account (Accounts.login cfg.out cfg.jwt cfg.validator cfg.verify_password m body)
  handle (register m body) r u =
      via account (Accounts.register cfg.out cfg.jwt cfg.validator m body)
  handle (refresh m) r u = via account (Accounts.refresh_token cfg.out cfg.jwt cfg.validator m r)
  handle (verify_email m body) r u =
      via account (Links.verify_email cfg.out cfg.validator cfg.hash_token m body)
  handle (resend_verification m body) r u = via account (Links.resend_verification m body)
  handle (forgot_password m body) r u = via account (Links.forgot_password m body)
  handle (reset_password m body) r u =
      via account (Links.reset_password cfg.out cfg.validator cfg.hash_token m body)
  handle (user_me m) r u = via account (Accounts.read_user cfg.out m u)
  handle (user_containers m) r u = via account (Accounts.read_user_with_containers cfg.out m u)
  handle (user m) r u = via account (Accounts.delete_own cfg.out m u)
  handle (containers m body) r u = containers_route m body
  handle (container_get m id) r u =
      via container (Handlers.get_container cfg.out cfg.auto_stop_timeout m id)
  handle (container_start m id) r u = via container (Handlers.start cfg.out m id)
  handle (container_stop m id) r u = via container (Handlers.stop cfg.out m id)
  handle (container_remove m id folder) r u = via container (Handlers.remove cfg.out m id folder)
  handle (container_exec m id cmd) r u = via container (Handlers.exec cfg.out m id cmd)
  handle (tree_folder m id) r u = via container (Files.tree_folder cfg.out m id)
  handle (file_read m id path) r u = via container (Files.read_file cfg.out m id path)
  handle (file_download m id path) r u = via container (Files.download_file cfg.out m id path)
  handle (file_write m id body) r u = via container (Files.write_file cfg.out m id body)
  handle (file_upload m id upload) r u = via container (Files.upload_file cfg.out m id upload)
  handle (ws_metrics id h vs) r u =
      connected metrics (Metrics.metrics_handler cfg.out cfg.allowed_origins id h vs)
  handle (ws_terminal id h ws) r u =
      connected (λ _. shell)
        (Terminal.terminal_handler cfg.out cfg.unmarshal_resize cfg.allowed_origins id h ws)
  handle (ws_logs id h frames) r u =
      connected log_entries
        (Logs.logs_handler cfg.log_time cfg.log_accepts cfg.out cfg.allowed_origins id h frames)
  handle (templates m category) r u =
      via catalogue (Templates.list_templates cfg.out cfg.json cfg.collation m category)
  handle (template m id) r u =
      via catalogue (Templates.get_template cfg.out cfg.json cfg.collation m id)
  handle (notification_stream ws) r u =
      opened (routed_writer cfg.instrument false cfg.writer).flushes u ws
  handle (notifications m) r u = via notice (Notices.list cfg.out m u)
  handle (read_all m) r u = via notice (Notices.mark_all_read cfg.out m u)
  handle (api_keys m body) r u = api_keys_route m u body
  handle (api_key m id) r u = via (λ _. key_deleted) (ApiKeys.delete_key cfg.out m u id)
  handle (networks m body) r u = via network_reply (NetworkHandlers.dispatch cfg.out m u body)
  handle (network m id) r u = via network_reply (NetworkHandlers.delete cfg.out m u id)
  handle (network_connect m id body) r u =
      via network_reply (NetworkHandlers.connect cfg.out m u id body)
  handle (network_disconnect m id project) r u =
      via network_reply (NetworkHandlers.disconnect cfg.out m u id project)
  handle (container_health m id) r u =
      via container (Handlers.get_health cfg.out m (user_or_empty u) id)
  handle (health_reset m id) r u =
      via container (Handlers.reset cfg.out true m (user_or_empty u) id)
  handle admin_stats r u = via administration (Admin.stats cfg.out cfg.today)
  handle (admin_users page_no sought) r u =
      via administration (Admin.list_users cfg.out cfg.like cfg.lower cfg.to_lower page_no sought)
  handle (admin_user m id) r u = via administration (Admin.delete_user cfg.out m id)
  handle (admin_plan m id plan) r u = via administration (Admin.update_user_plan cfg.out m id plan)

  unfoldable pub guarded : Access → Request → (Option String → Handler Reply) → Handler Reply
  guarded everyone r h = h none
  guarded token_only r h = auth_middleware cfg.out cfg.jwt r (λ id. h (some id))
  guarded token_or_key r h = middleware cfg.out cfg.jwt cfg.hash_key r (λ id. h (some id))
  guarded admin r h =
      middleware cfg.out cfg.jwt cfg.hash_key r (admin_only cfg.out (λ id. h (some id)))

  pub serve : Route → Request → Handler Reply
  serve route r = guarded (access_of route) r (handle route r)
