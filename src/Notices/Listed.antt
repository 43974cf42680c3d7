-- ===== src/Notices/Listed.antt =====
-- A notification of the recovery reaches the user's list and the live channels.
use host_container.Schema.{NotificationRow}
use host_container.Tables.{select}
use host_container.Bus.{Notification}
use host_container.Bus.Invariant.{IsValid, publish-delivered, delivered}
use host_container.World.{Outside, World, nonneg, statement, logged}
use host_container.Http.{get, payload}
use host_container.Recovery.{persist_and_notify, insert_notification}
use host_container.Notices.{
  newest_first, insert_newest, of_user, list, listed, last_twenty, matches, ok,
}
use host_container.Prelude.{
  List, ℕ, ◌<◌, none, ◌≡◌, All, ◌++◌, ◌∷◌, [], arith, refl, Bool-cases, String, some, str_eq, inl,
  false, take, inr, ap, ◌∙◌,
}

-- The row of a notification, made at this time.
abbrev pub row_of : ℕ → Notification → ℕ → NotificationRow
row_of id n now = record {
  user_id = id;
  kind = n.kind;
  title = n.title;
  body = n.body;
  read_at = none;
  created_at = now;
}

abbrev pub IsBefore : ℕ → NotificationRow → Type 0
IsBefore now x = x.created_at < now

newest_first-newest :
    (r : NotificationRow) (xs : List NotificationRow)
    → All (IsBefore r.created_at) xs
    → newest_first (xs ++ r ∷ []) ≡ r ∷ newest_first xs
unfolding newest_first insert_newest
newest_first-newest r [] a = refl
newest_first-newest r (x ∷ xs) (b, a) = rw (newest_first-newest r xs a) (ground (arith, b))

select-newest :
    (id : ℕ) (r : NotificationRow) (xs : List NotificationRow)
    → r.user_id ≡ id
    → select (of_user (nonneg id)) (xs ++ r ∷ []) ≡ select (of_user (nonneg id)) xs ++ r ∷ []
select-newest id r [] e = ground (arith, e)
select-newest id r (x ∷ xs) e = ground (arith, select-newest id r xs e)

select-IsBefore :
    (id now : ℕ) (xs : List NotificationRow)
    → All (IsBefore now) xs
    → All (IsBefore now) (select (of_user (nonneg id)) xs)
select-IsBefore id now [] a = tt
select-IsBefore id now (x ∷ xs) (b, a) = elim (Bool-cases (matches (nonneg id) x.user_id)) [
  | inl mine ↦ rw mine (b, select-IsBefore id now xs a)
  | inr other ↦ rw other (select-IsBefore id now xs a)
]

module _ (out : Outside) (user : String) (w : World) where
  last_twenty_lem :
      {id : ℕ} {ns ms : List NotificationRow}
      → out.to_bigint user ≡ some (nonneg id)
      → out.fails (statement ∷ w.trace) ≡ false
      → w.db.notifications ≡ ns
      → newest_first (select (of_user (nonneg id)) ns) ≡ ms
      → last_twenty out user w ≡ (ok (take 20 ms), logged statement w)
  unfolding last_twenty
  last_twenty_lem known answered rows top = ground arith

  list_lem :
      {ns : List NotificationRow} {w' : World}
      → str_eq user "" ≡ false
      → last_twenty out user w ≡ (ok ns, w')
      → (list out get (some user) w).0 ≡ record { status = 200; body = payload (listed ns) }
  unfolding list
  list_lem named h = ground arith

module _ (out : Outside) (user : String) (n : Notification) (w : World) {id : ℕ} where
  persist_and_notify_lem :
      out.to_bigint user ≡ some (nonneg id)
      → out.fails (statement ∷ w.trace) ≡ false
      → IsValid w.bus
      → (persist_and_notify out user n w).1 ≡ record w {
        db = record w.db {
          notifications = w.db.notifications ++ row_of id n (out.now w.trace) ∷ [];
        };
        bus = record w.bus { channels = delivered n (w.bus.subscribers user) w.bus.channels };
        trace = statement ∷ w.trace;
      }
  unfolding persist_and_notify insert_notification
  persist_and_notify_lem known stored v =
      let sent = publish-delivered user n w.bus v in ground arith

  -- A notification of the recovery for a user of this id, made later than the stored ones, where the
  -- two statements are answered and the bus is valid: the user's list shows it first and unread,
  -- before the 19 newest of the others, and each channel of the user that has room has it as its
  -- last item.
  pub list-persist_and_notify :
      str_eq user "" ≡ false
      → out.to_bigint user ≡ some (nonneg id)
      → out.fails (statement ∷ w.trace) ≡ false
      → out.fails (statement ∷ statement ∷ w.trace) ≡ false
      → IsValid w.bus
      → All (IsBefore (out.now w.trace)) w.db.notifications
      → ((list out get (some user) (persist_and_notify out user n w).1).0 ≡ record {
        status = 200;
        body = payload (
            listed (
              row_of id n (out.now w.trace)
              ∷ take 19 (newest_first (select (of_user (nonneg id)) w.db.notifications))));
      })
        × ((persist_and_notify out user n w).1.bus.channels
            ≡ delivered n (w.bus.subscribers user) w.bus.channels)
  list-persist_and_notify named known stored answered v earlier =
      let r = row_of id n (out.now w.trace) in
      let e = persist_and_notify_lem known stored v in
      let rows = select-newest id r w.db.notifications refl in
      let top =
        newest_first-newest r (select (of_user (nonneg id)) w.db.notifications)
          (select-IsBefore id (out.now w.trace) w.db.notifications earlier) in
      let first = last_twenty_lem out user (persist_and_notify out user n w).1 known in
      (
        list_lem out user (persist_and_notify out user n w).1 named (
            first (rw e answered) (ap (λ (x : World). x.db.notifications) e)
              (ap newest_first rows ∙ top)),
        ap (λ (x : World). x.bus.channels) e,
      )
