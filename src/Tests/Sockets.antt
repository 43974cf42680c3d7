-- ===== src/Tests/Sockets.antt =====
-- Examples: the sockets, the mailer, the folder and the lists.
use host_container.Sockets.Logs.Numbered.{write_frames-lines, lines_of, takes, numbered}
use host_container.Text.{text_eq}
use host_container.World.Calls.{log_all}
use host_container.World.{Event, exec_write, Word}
use host_container.Sockets.Metrics.{StatsResponse, metric_loop}
use host_container.Sockets.Metrics.Shares.{IsShared, ShowsNone, metric_loop-ShowsNone}
use host_container.Sockets.Logs.{Stream, stdout, write_frames}
use host_container.Sockets.Terminal.{ResizeMsg, Wake, message, cancelled, input_loop}
use host_container.Sockets.Terminal.Input.{messages, event_of, input_loop-passes}
use host_container.Sockets.Upgrade.{check_origin}
use host_container.Sockets.Upgrade.Allowed.{check_origin-cors}
use host_container.Cors.{cors}
use host_container.Tests.{calm, start, codes}
use host_container.Prelude.{
  ℕ, arith, length, List, [], ◌≡◌, some, ◌∷◌, true, ◌↔◌, All, take, false, refl, ◌++◌, Option,
  if◌then◌else◌, map, none, ◌⊎◌,
}

-- A reading at which the container used 1 of 10 since the one before, at 20.
abbrev reading : ℕ → StatsResponse
reading now = record {
  read = now;
  cpu_stats = record { total_usage = 6; system_usage = 30; online_cpus = 2 };
  precpu_stats = record { total_usage = 5; system_usage = 20; online_cpus = 2 };
  memory_stats = record { usage = 100; limit = 1000; inactive_file = some 10 };
}

abbrev frozen : StatsResponse
frozen = record (reading 2) { precpu_stats = (reading 2).cpu_stats }

reading-IsShared : IsShared (reading 1)
reading-IsShared = record {
  usage = record { rises = omega arith; fits = omega arith };
  system = record { rises = omega arith; fits = omega arith };
  less = omega arith;
}

metric_loop-ShowsNone_example :
    (length (metric_loop ((reading 1, true) ∷ [])).frames ≡ 1)
    × All ShowsNone (metric_loop ((reading 1, true) ∷ [])).frames
    × ((metric_loop ((reading 1, true) ∷ [])).panicked ≡ false)
    × (metric_loop ((reading 1, true) ∷ (frozen, true) ∷ [])
        ≡ record { frames = (metric_loop ((reading 1, true) ∷ [])).frames; panicked = true })
metric_loop-ShowsNone_example =
    metric_loop-ShowsNone ((reading 1, true) ∷ []) frozen true [] ((reading-IsShared, refl), tt)
      (refl, omega arith)

abbrev now_of : ℕ → ℕ
now_of n = n

-- A line that straddles two frames, and an empty one.
abbrev output : List (Stream × Word)
output = (stdout, codes "a\n\nb") ∷ (stdout, codes "c\n") ∷ []

write_frames-lines_example :
    (write_frames now_of (takes 2) output (record { sent = []; seq = 0 })).sent
    ≡ take 2 (numbered now_of 0 (lines_of output))
write_frames-lines_example = write_frames-lines now_of 2 output

abbrev unmarshal : Word → Option ResizeMsg
unmarshal m =
    if text_eq m (codes "R") then some (record { kind = "resize"; cols = 80; rows = 24 }) else none

abbrev typed : List Wake
typed = message (codes "ls") ∷ message (codes "R") ∷ cancelled ∷ []

input_loop-passes_example :
    (handled rest : List Word) × (messages typed ≡ handled ++ rest)
    × (input_loop calm unmarshal "e" typed start
        ≡ log_all (map (event_of unmarshal "e") handled) start)
    × ((rest ≡ [])
        ⊎ ((m : Word) × (t : List Event) × ((input_loop calm unmarshal "e" typed start).trace
              ≡ exec_write "e" m ∷ t)
            × (calm.fails (exec_write "e" m ∷ t) ≡ true)))
input_loop-passes_example = input_loop-passes calm unmarshal "e" typed start

check_origin-cors_example :
    (check_origin (codes "a, b") (codes "b") ≡ true)
    ↔ ((cors (codes "a, b") false (codes "b")).allow_origin ≡ some (codes "b"))
check_origin-cors_example = check_origin-cors (codes "a, b") (codes "b") false refl
