-- ===== src/Tests/Crashes.antt =====
-- Examples: the recovery of crashed containers, and the tokens.
use host_container.Events.Loop.{
  started, Server, arrives, runs, start_events, run_one, until_sleep, wake,
}
use host_container.Events.{exit_code_of}
use host_container.Recovery.{crash_info, read_crash, update_where, after_mark}
use host_container.Events.Loop.Overlap.{Run, done, next, start_events-overlap}
use host_container.Prelude.{◌+◌, ◌-◌, ◌≤◌, ◌≡◌, refl, some, [], ◌∷◌, arith, String}
use host_container.World.{err, no_rows, statement}
use host_container.Recovery.{handle_crash}
use host_container.Recovery.Steps.{restarts}
use host_container.Recovery.Outcome.{Joined, Settled}
use host_container.Recovery.Crash.{handle_crash-Settled}
use host_container.Events.{Message}
use host_container.Tokens.{TokenRecord, consume}
use host_container.Tokens.SingleUse.{Monotone, consume_once}
use host_container.Tests.{calm, start, site, ann, free}

abbrev joined : Joined "abc" site ann free start
joined = record { found = refl; user = refl; plan = refl }

handle_crash-Settled_example :
    Settled calm start.trace "abc" site ann free start (handle_crash calm "abc" 137 start).1
handle_crash-Settled_example = handle_crash-Settled calm 137 start joined

abbrev crashed : Message
crashed = record { action = "die"; actor_id = "abc"; exit_code = some 137 }

-- Two crashes whose handlers sleep at the same time, and then both restart the container.
unfoldable two_overlap : (s : Server) × Run calm "abc" 2 (start_events start) s
unfolding start_events run_one until_sleep wake read_crash update_where after_mark exit_code_of
    crash_info
two_overlap = (
  _,
  next (arrives crashed) (refl, tt) (omega arith)
      (next (runs [] (started crashed) []) (refl, tt) (omega arith)
        (next (arrives crashed) (refl, (refl, tt)) (omega arith)
          (next (runs [] (started crashed) _) (refl, (refl, tt)) (omega arith)
            (next (runs [] _ _) (refl, tt) (omega arith)
              (next (runs [] _ []) tt (omega arith) done))))),
)

start_events-overlap_example :
    restarts two_overlap.0.world.trace ≤ restarts start.trace + (2 - 1) + (2 - 1)
start_events-overlap_example = start_events-overlap calm 2 start two_overlap.1 joined

abbrev hash : String → String
hash s = s

calm-Monotone : Monotone calm
calm-Monotone = record { later = λ e t. omega arith }

abbrev redeemed : TokenRecord
redeemed = record { id = 0; user_id = 1; kind = "reset" }

consume_once_example : consume calm hash "t" "reset" (consume calm hash "t" "reset" start).1 ≡ (
  err no_rows,
  record (consume calm hash "t" "reset" start).1 { trace = statement ∷ statement ∷ [] },
)
unfolding consume
consume_once_example = consume_once calm hash calm-Monotone "t" "reset" start {rec = redeemed} refl
