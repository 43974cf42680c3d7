-- ===== src/Admin.antt =====
-- service/adminHandler.go: the pages of the administrators.
--
-- SQL's LIKE and LOWER, and Go's `strings.ToLower`, are parameters. A query's page is what `Atoi`
-- leaves of it; the reply's rows are taken to be scanned.
pub mod Pages
use host_container.Prelude.{
  ℕ, ◌+◌, ◌-◌, ◌*◌, ◌%◌, ◌^◌, String, Bool, true, false, ◌&&◌, ◌||◌, not, Option, none, some, List,
  [], ◌∷◌, ◌++◌, take, drop, length, if◌then◌else◌, ltb, leb, ◌==◌, str_eq,
}
use host_container.Schema.{Db, UserRow, ContainerRow}
use host_container.Tables.{find, select, update, count}
use host_container.World.{
  Outside, World, Action, Result, ok, err, Error, refused, statement, user_not_found, Bigint,
  nonneg, negative, matches, pool, cast, query, exec,
}
use host_container.Text.{concat}
use host_container.Http.{
  Method, is_delete, is_patch, Handler, message, no_content, payload, respond, unless, answer,
  decoded,
}
use host_container.Users.{delete_user_row}

pub record AdminStats : Type 0 where
  pub total_users : ℕ
  pub total_containers : ℕ
  pub running_containers : ℕ
  pub containers_today : ℕ
  pub free_users : ℕ
  pub pro_users : ℕ
  pub team_users : ℕ

pub record AdminUser : Type 0 where
  pub id : String
  pub name : String
  pub email : String
  pub role : String
  pub plan_id : String
  pub container_count : ℕ

pub data Payload : Type 0 where
  stats_of : AdminStats → Payload
  page_of : List AdminUser → Payload
  nothing : Payload

-- A page below 1, and what is no number, is the first.
unfoldable pub page_number : Option Bigint → ℕ
page_number none = 1
page_number (some (negative n)) = 1
page_number (some (nonneg n)) = if ltb n 1 then 1 else n

-- `(page - 1) * 20` of an `int` of 64 bits.
unfoldable pub offset_of : ℕ → ℕ
offset_of page = ((page - 1) * 20) % (2 ^ 64)

-- ORDER BY u.id DESC
pub insert_user_desc : UserRow → List UserRow → List UserRow
insert_user_desc u [] = u ∷ []
insert_user_desc u (x ∷ xs) = if ltb u.id x.id then x ∷ insert_user_desc u xs else u ∷ x ∷ xs

pub order_users : List UserRow → List UserRow
order_users [] = []
order_users (u ∷ us) = insert_user_desc u (order_users us)

-- COUNT(c.id), in the group of a user.
pub admin_row : (ℕ → String) → List ContainerRow → UserRow → AdminUser
admin_row to_text containers u = record {
  id = to_text u.id;
  name = u.name;
  email = u.email;
  role = u.role;
  plan_id = u.plan_id;
  container_count = count (λ (r : ContainerRow). r.user_id == u.id) containers;
}

pub admin_rows : (ℕ → String) → List ContainerRow → List UserRow → List AdminUser
admin_rows to_text containers [] = []
admin_rows to_text containers (u ∷ us) =
    admin_row to_text containers u ∷ admin_rows to_text containers us

-- UPDATE users SET plan_id = $1
unfoldable pub set_plan : String → UserRow → UserRow
set_plan plan u = record u { plan_id = plan }

abbrev pub is_plan : String → Bool
is_plan p = str_eq p "free" || str_eq p "pro" || str_eq p "team"

module _ (out : Outside) where
  -- A count whose error is not looked at: what was not scanned is 0.
  abbrev pub counted : (Db → ℕ) → World → ℕ × World
  counted f w =
      let (r, w') = query out pool (λ d. ok (f d)) w in (elim r [ ok n ↦ n | err _ ↦ 0 ], w')

  -- `CURRENT_DATE` is the time at which the day began.
  unfoldable pub stats : ℕ → Handler Payload
  stats today w =
      let (users, w1) = counted (λ d. length d.users) w in
      let (containers, w2) = counted (λ d. length d.containers) w1 in
      let (running, w3) =
        counted (λ d. count (λ (r : ContainerRow). str_eq r.status "running") d.containers) w2 in
      let (new, w4) =
        counted
          (λ d.
            count (λ (r : ContainerRow). elim r.created_at [ none ↦ false | some t ↦ leb today t ])
              d.containers)
          w3 in
      let (free, w5) = counted (λ d. count (λ (u : UserRow). str_eq u.plan_id "free") d.users) w4 in
      let (pro, w6) = counted (λ d. count (λ (u : UserRow). str_eq u.plan_id "pro") d.users) w5 in
      let (team, w7) = counted (λ d. count (λ (u : UserRow). str_eq u.plan_id "team") d.users) w6 in
      respond 200
        (payload (
          stats_of (record {
            total_users = users;
            total_containers = containers;
            running_containers = running;
            containers_today = new;
            free_users = free;
            pro_users = pro;
            team_users = team;
          })))
        w7

  -- DELETE FROM users WHERE id = $1::bigint; what belongs to the user goes along.
  unfoldable pub delete_user_by_admin : String → Action (Unit {0})
  delete_user_by_admin id = exec out pool λ d. cast out id λ k.
      elim (find (λ (u : UserRow). matches k u.id) d.users) [
        | none ↦ err user_not_found
        | some _ ↦ ok (tt, delete_user_row k d)
      ]

  unfoldable pub delete_user : Method → String → Handler Payload
  delete_user m id = unless (is_delete m) 405 "method not allowed" (
      answer (delete_user_by_admin id) (λ e. respond 404 (message "user not found"))
        (λ _. respond 204 no_content))

  -- The number of rows is not looked at.
  unfoldable pub update_plan_row : String → String → Action (Unit {0})
  update_plan_row plan id = exec out pool λ d. cast out id λ k.
      ok (tt, record d { users = update (λ (u : UserRow). matches k u.id) (set_plan plan) d.users })

  unfoldable pub update_user_plan : Method → String → Option String → Handler Payload
  update_user_plan m id body = unless (is_patch m) 405 "method not allowed" (
      decoded body "invalid body" λ plan. unless (is_plan plan) 400 "invalid plan_id" (
        answer (update_plan_row plan id) (λ e. respond 500 (message "internal error"))
          (λ _. respond 200 (payload nothing))))

module _ (out : Outside) (like : String → String → Bool) (lower to_lower : String → String) where
  abbrev pub pattern_of : String → String
  pattern_of sought =
      let s = to_lower sought in if str_eq s "" then "%" else concat (concat "%" s) "%"

  abbrev pub is_hit : String → UserRow → Bool
  is_hit pattern u = like (lower u.email) pattern || like (lower u.name) pattern

  -- The rows of the query before LIMIT and OFFSET.
  unfoldable pub hits : String → Db → List AdminUser
  hits sought d =
      admin_rows out.to_text d.containers
        (order_users (select (is_hit (pattern_of sought)) d.users))

  -- LIMIT 20 OFFSET $2: a number that wrapped around to a negative one is an error of the database.
  unfoldable pub query_page : ℕ → String → Action (List AdminUser)
  query_page page sought = query out pool λ d.
      if ltb (offset_of page) (2 ^ 63)
      then ok (take 20 (drop (offset_of page) (hits sought d)))
      else err (refused statement)

  unfoldable pub list_users : Option Bigint → String → Handler Payload
  list_users page sought =
      answer (query_page (page_number page) sought) (λ e. respond 500 (message "internal error"))
        (λ us. respond 200 (payload (page_of us)))
