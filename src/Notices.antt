-- ===== src/Notices.antt =====
-- service/notificationHandler.go: the stored notifications, and the stream of the live ones.
--
-- The metadata and the JSON of an item are not modelled. A page's rows are taken to be scanned.
pub mod Stream
pub mod Closing
pub mod Listed
use host_container.Prelude.{
  ℕ, ◌+◌, String, Bool, true, false, ◌&&◌, not, Option, none, some, List, [], ◌∷◌, ◌++◌, take,
  if◌then◌else◌, ltb, ◌==◌, str_eq,
}
use host_container.Bus.{Notification}
use host_container.World.{
  publish_live, Outside, World, Action, Result, ok, Bigint, matches, pool, cast, query, exec,
  ignore, ◌>>=◌, ◌>>◌,
}
use host_container.Recovery.{insert_notification}
use host_container.Schema.{Db, NotificationRow}
use host_container.Tables.{select, update}
use host_container.Http.{
  Method, is_get, is_post, Handler, message, payload, respond, unless, answer,
}

pub data Payload : Type 0 where
  listed : List NotificationRow → Payload
  done : Payload

-- The user id of the context, if there is one that is not empty.
abbrev pub signed_in : {A : Type 0} → Option String → (String → Handler A) → Handler A
signed_in user rest w = elim user [
  | none ↦ respond 401 (message "unauthorized") w
  | some u ↦ unless (not (str_eq u "")) 401 "unauthorized" (rest u) w
]

-- ORDER BY created_at DESC
unfoldable pub insert_newest : NotificationRow → List NotificationRow → List NotificationRow
insert_newest n [] = n ∷ []
insert_newest n (x ∷ xs) =
    if ltb n.created_at x.created_at then x ∷ insert_newest n xs else n ∷ x ∷ xs

unfoldable pub newest_first : List NotificationRow → List NotificationRow
newest_first [] = []
newest_first (n ∷ ns) = insert_newest n (newest_first ns)

abbrev pub of_user : Bigint → NotificationRow → Bool
of_user k n = matches k n.user_id

-- WHERE user_id = $1::bigint AND read_at IS NULL
abbrev pub is_unread : Bigint → NotificationRow → Bool
is_unread k n = matches k n.user_id && elim n.read_at [ none ↦ true | some _ ↦ false ]

abbrev pub read_now : ℕ → NotificationRow → NotificationRow
read_now now n = record n { read_at = some now }

module _ (out : Outside) where
  -- LIMIT 20
  unfoldable pub last_twenty : String → Action (List NotificationRow)
  last_twenty user =
      query out pool
        λ d. cast out user λ k. ok (take 20 (newest_first (select (of_user k) d.notifications)))

  unfoldable pub list : Method → Option String → Handler Payload
  list m user = unless (is_get m) 405 "method not allowed" (
      signed_in user λ u.
        answer (last_twenty u) (λ e. respond 500 (message "internal error"))
          (λ ns. respond 200 (payload (listed ns))))

  unfoldable pub read_all : String → Action (Unit {0})
  read_all user w =
      let now = out.now w.trace in
      exec out pool
        (λ d. cast out user λ k.
          ok (tt, record d { notifications = update (is_unread k) (read_now now) d.notifications }))
        w

  -- The error is dropped.
  unfoldable pub mark_all_read : Method → Option String → Handler Payload
  mark_all_read m user =
      unless (is_post m) 405 "method not allowed"
        (signed_in user λ u w. respond 200 (payload done) (ignore (read_all u) w).1)

  -- `PersistAndPublish`, which nothing calls, has the same two steps as `persistAndNotify`.
  unfoldable pub persist_and_publish : String → Notification → Action (Unit {0})
  persist_and_publish user n = do ignore (insert_notification out user n); publish_live user n
