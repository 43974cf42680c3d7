-- ===== src/Entry/Pages.antt =====
-- The handlers that main.go defines itself: the plans, the liveness and the readiness of the server.
--
-- What `rows.Scan` reports is dropped; the rows are taken to be scanned.
use host_container.Schema.{PlanRow}
use host_container.World.{Outside, ok, db_ping, pool, query, call}
use host_container.Http.{Handler, message, no_content, payload, respond, answer}
use host_container.Prelude.{List, String, map, ℕ, ◌∷◌, [], if◌then◌else◌, leb}

pub record PlanItem : Type 0 where
  pub id : String
  pub name : String
  pub max_containers : ℕ
  pub auto_stop_minutes : ℕ
  pub price_usd_cents : ℕ

pub data Page : Type 0 where
  plans : List PlanItem → Page
  text : String → Page

-- SELECT id, name, max_containers, auto_stop_minutes, price_usd_cents
abbrev pub plan_item : PlanRow → PlanItem
plan_item p = record {
  id = p.id;
  name = p.name;
  max_containers = p.max_containers;
  auto_stop_minutes = p.auto_stop_minutes;
  price_usd_cents = p.price_usd_cents;
}

-- ORDER BY price_usd_cents
pub insert_plan : PlanRow → List PlanRow → List PlanRow
insert_plan p [] = p ∷ []
insert_plan p (q ∷ qs) =
    let later = q ∷ insert_plan p qs in
    if leb p.price_usd_cents q.price_usd_cents then p ∷ q ∷ qs else later

pub order_plans : List PlanRow → List PlanRow
unfolding insert_plan
order_plans [] = []
order_plans (p ∷ ps) = insert_plan p (order_plans ps)

unfoldable pub ping_page : Handler Page
ping_page = respond 200 (payload (text "pong"))

-- `/health` of the main server, and `/healthz` of the other.
unfoldable pub health_page : Handler Page
health_page = respond 200 (payload (text "ok"))

module _ (out : Outside) where
  unfoldable pub plans_page : Handler Page
  plans_page =
      answer (query out pool (λ d. ok (map plan_item (order_plans d.plans))))
        (λ e. respond 500 no_content) (λ ps. respond 200 (payload (plans ps)))

  -- `/readyz`
  unfoldable pub ready_page : Handler Page
  ready_page =
      answer (call out db_ping) (λ e. respond 503 (message "database unreachable"))
        (λ _. respond 200 (payload (text "ready")))
