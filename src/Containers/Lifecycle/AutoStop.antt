-- ===== src/Containers/Lifecycle/AutoStop.antt =====
-- The auto-stop watcher, and whom its notifications reach.
use host_container.Prelude.{
  ℕ, String, Bool, true, false, ◌≡◌, refl, sym, subst, some, List, [], ◌∷◌, arith, if◌then◌else◌,
  All, map, ap, ◌∙◌,
}
use host_container.Schema.{ContainerRow}
use host_container.Bus.{Bus, Notification, publish}
use host_container.Bus.Channels.{mem}
use host_container.Bus.Invariant.{IsValid, publish-delivered, delivered, delivered-IsValid}
use host_container.World.{
  Outside, World, ok, err, Result, publish_live, >>_of_ok, logged, refused, statement,
}
use host_container.Containers.Repo.{
  ContainerInfo, scan_info, get_container_by_id, update_container, get_running_older_than,
}
use host_container.Containers.Lifecycle.{
  stop_container, notify_stopped, stop_found, stop_and_notify, stop_each, check_and_stop_expired,
  auto_stop_notice,
}

-- What the scan leaves out: the user of a container.
abbrev Ownerless : ContainerInfo → Type 0
Ownerless c = c.user_id ≡ ""

scan_info-Ownerless :
    (out : Outside) (rows : List ContainerRow) → All Ownerless (map (scan_info out) rows)
unfolding scan_info
scan_info-Ownerless out [] = tt
scan_info-Ownerless out (r ∷ rows) = (refl, scan_info-Ownerless out rows)

module _ (out : Outside) where
  bus-stop_container : (id : String) (w : World) → (stop_container out id w).1.bus ≡ w.bus
  unfolding stop_container get_container_by_id update_container
  bus-stop_container id w = ground arith

-- A bus on which only channels of the empty user id have changed.
pub record Quiet (b b' : Bus) : Type 0 where
  pub valid : IsValid b'
  pub subscribers : b'.subscribers ≡ b.subscribers
  pub heard : (ch : ℕ) → mem ch (b.subscribers "") ≡ false → b'.channels ch ≡ b.channels ch

Quiet-publish :
    (n : Notification) (b : Bus) → IsValid b → (b' : Bus) × (publish "" n b ≡ some b') × Quiet b b'
Quiet-publish n b v = (
  record b { channels = delivered n (b.subscribers "") b.channels },
  publish-delivered "" n b v,
  record {
    valid = delivered-IsValid n (b.subscribers "") b v;
    subscribers = refl;
    heard = λ ch h. ground arith;
  },
)

pub Quiet-trans : {a b c : Bus} → Quiet a b → Quiet b c → Quiet a c
Quiet-trans p q = record {
  valid = q.valid;
  subscribers = q.subscribers ∙ p.subscribers;
  heard = λ ch h.
      q.heard ch (ap (λ (s : String → List ℕ). mem ch (s "")) p.subscribers ∙ h) ∙ p.heard ch h;
}

pub Quiet-refl : (b : Bus) → IsValid b → Quiet b b
Quiet-refl b v = record { valid = v; subscribers = refl; heard = λ ch h. refl }

publish_live_sent :
    (u : String) (n : Notification) (w : World) (b : Bus)
    → publish u n w.bus ≡ some b
    → publish_live u n w ≡ (ok tt, record w { bus = b })
publish_live_sent u n w b h = ground arith

Quiet-publish_live :
    (u : String) (n : Notification) (w : World)
    → u ≡ ""
    → IsValid w.bus
    → ((publish_live u n w).0 ≡ ok tt) × Quiet w.bus (publish_live u n w).1.bus
Quiet-publish_live u n w e v =
    let (b, sent, quiet) = Quiet-publish n w.bus v in
    subst (λ (p : Result (Unit {0}) × World). (p.0 ≡ ok tt) × Quiet w.bus p.1.bus)
      (sym (publish_live_sent u n w b (ap (λ (v' : String). publish v' n w.bus) e ∙ sent)))
      (refl, quiet)

Quiet-notify_stopped :
    (out : Outside) (c : ContainerInfo) (p : Result (Unit {0}) × World)
    → c.user_id ≡ ""
    → IsValid p.1.bus
    → ((notify_stopped out c p).0 ≡ ok tt) × Quiet p.1.bus (notify_stopped out c p).1.bus
unfolding notify_stopped
Quiet-notify_stopped out c (err _, w) e v = (refl, Quiet-refl w.bus v)
Quiet-notify_stopped out c (ok _, w) e v =
    Quiet-publish_live c.user_id (auto_stop_notice c (out.now w.trace)) w e v

Quiet-stop_and_notify :
    (out : Outside) (c : ContainerInfo) (w : World)
    → c.user_id ≡ ""
    → IsValid w.bus
    → ((stop_and_notify out c w).0 ≡ ok tt) × Quiet w.bus (stop_and_notify out c w).1.bus
unfolding stop_and_notify
Quiet-stop_and_notify out c w e v =
    let same = bus-stop_container out c.project_id w in
    let p = stop_container out c.project_id w in
    let (done, quiet) = Quiet-notify_stopped out c p e (subst IsValid (sym same) v) in
    (done, subst (λ b. Quiet b (notify_stopped out c p).1.bus) same quiet)

Quiet-stop_each :
    (out : Outside) (cs : List ContainerInfo) (w : World)
    → All Ownerless cs
    → IsValid w.bus
    → ((stop_each out cs w).0 ≡ ok tt) × Quiet w.bus (stop_each out cs w).1.bus
unfolding stop_each
Quiet-stop_each out [] w a v = (refl, Quiet-refl w.bus v)
Quiet-stop_each out (c ∷ cs) w a v =
    let (done, quiet) = Quiet-stop_and_notify out c w a.0 v in
    let (done', quiet') = Quiet-stop_each out cs (stop_and_notify out c w).1 a.1 quiet.valid in
    subst (λ (p : Result (Unit {0}) × World). (p.0 ≡ ok tt) × Quiet w.bus p.1.bus)
      (sym (>>_of_ok (stop_and_notify out c) (stop_each out cs) w done))
      (done', Quiet-trans quiet quiet')

Quiet-stop_found :
    (out : Outside) (rows : List ContainerRow) (failed : Bool) (w : World)
    → IsValid w.bus
    → Quiet w.bus
        (stop_found out (
          if failed
          then (err (refused statement), w)
          else (ok (map (scan_info out) rows), w))).1.bus
unfolding stop_found
Quiet-stop_found out rows true w v = Quiet-refl w.bus v
Quiet-stop_found out rows false w v = (Quiet-stop_each out _ w (scan_info-Ownerless out rows) v).1

pub Quiet-check_and_stop_expired :
    (out : Outside) (timeout : ℕ) (w : World)
    → IsValid w.bus
    → Quiet w.bus (check_and_stop_expired out timeout w).1.bus
unfolding check_and_stop_expired get_running_older_than
Quiet-check_and_stop_expired out timeout w v =
    Quiet-stop_found out _ (out.fails (statement ∷ w.trace)) (logged statement w) v
