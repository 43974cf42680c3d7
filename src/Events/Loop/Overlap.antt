-- ===== src/Events/Loop/Overlap.antt =====
-- How often Docker restarts a container whose handlers overlap.
use host_container.Schema.{UserRow, ContainerRow, PlanRow}
use host_container.Tables.{count}
use host_container.World.{Outside, World}
use host_container.Recovery.Steps.{restarts}
use host_container.Recovery.Outcome.{Joined}
use host_container.Events.Loop.{
  Goroutine, started, sleeping, run_one, left_over, Server, start_events, Step, arrives, drops,
  runs,
}
use host_container.Events.Loop.Spent.{Spent}
use host_container.Events.Loop.Turns.{is_sleeping, Fits, Woken, Turned, turned}
use host_container.Prelude.{
  ℕ, ◌+◌, ◌-◌, String, Bool, true, ◌≡◌, ◌≤◌, ◌<◌, ◌⊎◌, inl, inr, refl, sym, arith, List, [], ◌∷◌,
  ◌++◌, Option, some, none, All, if◌then◌else◌, subst, Bool-cases, ◌∙◌, leb,
}

abbrev pub IsAbout : String → Goroutine → Type 0
IsAbout docker (started m) = docker ≡ m.actor_id
IsAbout docker (sleeping c d code) = docker ≡ d

abbrev pub sleepers : List Goroutine → ℕ
sleepers gs = count is_sleeping gs

-- A run in which every goroutine is about the container, and at most `m` of them sleep at a time.
pub data Run (out : Outside) (docker : String) (m : ℕ) : Server → Server → Type 0 where
  done : {s : Server} → Run out docker m s s
  next :
      {s t e : Server}
      → Step out s t
      → All (IsAbout docker) t.goroutines
      → sleepers t.goroutines ≤ m
      → Run out docker m t e
      → Run out docker m s e

below_or_full : (n limit : ℕ) → (n < limit) ⊎ (limit ≤ n)
below_or_full n limit = elim (Bool-cases (leb limit n)) [
  | inl full ↦ inr (ground arith)
  | inr below ↦ inl (ground arith)
]

module _ {A : Type 0} where
  All-middle : (P : A → Type 0) (xs : List A) (x : A) (ys : List A) → All P (xs ++ x ∷ ys) → P x
  All-middle P [] x ys (h, hs) = h
  All-middle P (z ∷ xs) x ys (h, hs) = All-middle P xs x ys hs

  All-without :
      (P : A → Type 0) (xs : List A) (x : A) (ys : List A) → All P (xs ++ x ∷ ys) → All P (xs ++ ys)
  All-without P [] x ys (h, hs) = hs
  All-without P (z ∷ xs) x ys (h, hs) = (h, All-without P xs x ys hs)

  All-instead :
      (P : A → Type 0) (xs : List A) (x y : A) (ys : List A)
      → P y
      → All P (xs ++ x ∷ ys)
      → All P (xs ++ y ∷ ys)
  All-instead P [] x y ys new (h, hs) = (new, hs)
  All-instead P (z ∷ xs) x y ys new (h, hs) = (h, All-instead P xs x y ys new hs)

  count-middle :
      (q : A → Bool) (xs : List A) (x : A) (ys : List A)
      → count q (xs ++ x ∷ ys) ≡ (if q x then count q (xs ++ ys) + 1 else count q (xs ++ ys))
  count-middle q [] x ys = refl
  count-middle q (z ∷ xs) x ys = ground (arith, count-middle q xs x ys)

module _ (out : Outside) (docker : String) (u : UserRow) (p : PlanRow) (id m budget : ℕ) where
  -- What is left to restart, by the counter, the restarts so far and the handlers that sleep: past the
  -- limit only those may still restart.
  abbrev Left : ℕ → ℕ → ℕ → Type 0
  Left n k z =
      ((n < p.max_auto_restarts) × (k + (p.max_auto_restarts - n) ≤ budget))
      ⊎ ((p.max_auto_restarts ≤ n) × (k + z ≤ budget + (m - 1)))

  record Holds (gs : List Goroutine) (w : World) : Type 0 where
    row : ContainerRow
    joined : Joined docker row u p w
    same_id : row.id ≡ id
    fit : All (Fits docker id) gs
    few : sleepers gs ≤ m
    left : Left row.restart_count (restarts w.trace) (sleepers gs)

  abbrev HoldsAt : Server → Type 0
  HoldsAt s = Holds s.goroutines s.world

  module _ (before : List Goroutine) (g : Goroutine) (after : List Goroutine) (w : World)
      (h : Holds (before ++ g ∷ after) w) where
    slept :
        sleepers (before ++ g ∷ after)
        ≡ (if is_sleeping g then sleepers (before ++ after) + 1 else sleepers (before ++ after))
    slept = count-middle is_sleeping before g after

    fewer : sleepers (before ++ after) ≤ sleepers (before ++ g ∷ after)
    fewer = ground (arith, slept)

    rest_fit : All (Fits docker id) (before ++ after)
    rest_fit = All-without (Fits docker id) before g after h.fit

    Holds-Spent :
        (gs : List Goroutine) (w' : World)
        → All (Fits docker id) gs
        → sleepers gs ≤ m
        → (sleepers gs ≤ sleepers (before ++ g ∷ after))
          ⊎ (h.row.restart_count < p.max_auto_restarts)
        → Spent docker h.row u p w w'
        → Holds gs w'
    Holds-Spent gs w' fits few less s = record {
      row = s.after;
      joined = s.joined;
      same_id = s.same_id ∙ h.same_id;
      fit = fits;
      few = few;
      left = elim h.left [
        | inl (below, enough) ↦
            inl (omega (arith, s.same_count), omega (arith, s.same_count, s.same_restarts))
        | inr (full, enough) ↦ inr (
          omega (arith, s.same_count),
          elim less [
            | inl as_few ↦ omega (arith, s.same_restarts)
            | inr below ↦ absurd (omega arith)
          ],
        )
      ];
    }

    Holds-Woken :
        (w' : World)
        → is_sleeping g ≡ true
        → Woken docker h.row u p w w'
        → Holds (before ++ after) w'
    Holds-Woken w' sleeps s =
        let same : sleepers (before ++ g ∷ after) ≡ sleepers (before ++ after) + 1 =
          ground (arith, slept) in
        record {
          row = s.after;
          joined = s.joined;
          same_id = s.same_id ∙ h.same_id;
          fit = rest_fit;
          few = omega (arith, h.few);
          left = elim h.left [
            | inl (below, enough) ↦
                elim (below_or_full (h.row.restart_count + 1) p.max_auto_restarts) [
                  | inl more ↦ inl (omega (arith, s.raised), omega (arith, s.raised, s.asked))
                  | inr last ↦ inr (omega (arith, s.raised), omega (arith, s.asked, h.few))
                ]
            | inr (full, enough) ↦ inr (omega (arith, s.raised), omega (arith, s.asked))
          ];
        }

    Holds-Turned :
        (q : Option Goroutine × World)
        → Turned out w h.joined g q
        → sleepers (before ++ (left_over q.0 ++ after)) ≤ m
        → Holds (before ++ (left_over q.0 ++ after)) q.1
    Holds-Turned (none, w') (inl s) few = Holds-Spent _ w' rest_fit few (inl fewer) s
    Holds-Turned (none, w') (inr (sleeps, s)) few = Holds-Woken w' sleeps s
    Holds-Turned (some k, w') (_, _, fits, below, s) few =
        Holds-Spent _ w'
          (All-instead (Fits docker id) before g k after
            (subst (λ i. Fits docker i k) h.same_id fits) h.fit)
          few (inr below) s

  Holds-Step :
      {s t : Server}
      → Step out s t
      → All (IsAbout docker) t.goroutines
      → sleepers t.goroutines ≤ m
      → HoldsAt s
      → HoldsAt t
  Holds-Step (arrives msg) about few h = record {
    row = h.row;
    joined = h.joined;
    same_id = h.same_id;
    fit = (about.0, h.fit);
    few = few;
    left = h.left;
  }
  Holds-Step (drops {w}) about few h = record {
    row = h.row;
    joined = record { found = h.joined.found; user = h.joined.user; plan = h.joined.plan };
    same_id = h.same_id;
    fit = h.fit;
    few = h.few;
    left = h.left;
  }
  Holds-Step (runs {w} before g after) about few h =
      Holds-Turned before g after w h (run_one out g w)
        (turned out w h.joined g (
          subst (λ i. Fits docker i g) (sym h.same_id)
            (All-middle (Fits docker id) before g after h.fit)))
        few

  Holds-Run : {s e : Server} → Run out docker m s e → HoldsAt s → HoldsAt e
  Holds-Run done h = h
  Holds-Run (next step about few run) h = Holds-Run run (Holds-Step step about few h)

-- Whatever messages of one container of the tables arrive, in whatever order the scheduler runs their
-- handlers, each interrupted only at its sleep, however often the stream drops and whatever call is
-- refused: as long as no other container's messages arrive, nothing but these handlers writes to the
-- tables, and at most m of its crashes sleep at the same time, Docker is asked to restart it at most as
-- often as its plan allows beyond the restarts already counted, and m - 1 times more.
pub start_events-overlap :
    (out : Outside) {docker : String} {r : ContainerRow} {u : UserRow} {p : PlanRow} (m : ℕ)
    (w : World) {s : Server}
    → Run out docker m (start_events w) s
    → Joined docker r u p w
    → restarts s.world.trace ≤ restarts w.trace + (p.max_auto_restarts - r.restart_count) + (m - 1)
unfolding start_events
start_events-overlap out {docker} {r} {u} {p} m w run j =
    let h =
      Holds-Run out docker u p r.id m (restarts w.trace + (p.max_auto_restarts - r.restart_count))
        run
        (record {
          row = r;
          joined = record { found = j.found; user = j.user; plan = j.plan };
          same_id = refl;
          fit = tt;
          few = omega arith;
          left = elim (below_or_full r.restart_count p.max_auto_restarts) [
            | inl below ↦ inl (below, omega arith)
            | inr full ↦ inr (full, omega arith)
          ];
        }) in
    elim h.left [ inl (below, enough) ↦ omega arith | inr (full, enough) ↦ omega arith ]
