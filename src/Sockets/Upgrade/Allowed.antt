-- ===== src/Sockets/Upgrade/Allowed.antt =====
-- The origins of the WebSocket connections are those of CORS.
use host_container.Prelude.{◌≡◌, refl, Bool, true, false, some, List, [], ◌∷◌, arith, ◌↔◌}
use host_container.World.{Word}
use host_container.Text.{text_eq}
use host_container.Cors.{split_comma, keep_filled, parse_allowed_origins, cors}
use host_container.Sockets.Upgrade.{add_origins, parse_ws_origins, check_origin}

add_origins-eq-keep_filled : (ws : List Word) → add_origins ws ≡ keep_filled ws
unfolding add_origins keep_filled
add_origins-eq-keep_filled [] = refl
add_origins-eq-keep_filled (w ∷ ws) = ground (arith, add_origins-eq-keep_filled ws)

-- Whatever ALLOWED_ORIGINS holds, a WebSocket from a page of an origin that is not empty may be opened
-- exactly if the headers of a reply to that origin allow it.
pub check_origin-cors :
    (raw origin : Word) (is_options : Bool)
    → text_eq origin [] ≡ false
    → (check_origin raw origin ≡ true) ↔ ((cors raw is_options origin).allow_origin ≡ some origin)
unfolding check_origin cors parse_ws_origins parse_allowed_origins
check_origin-cors raw origin is_options given =
    rw (add_origins-eq-keep_filled (split_comma raw), given) (ground arith, ground arith)
