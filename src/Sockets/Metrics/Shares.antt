-- ===== src/Sockets/Metrics/Shares.antt =====
-- What a snapshot shows of the counters.
use host_container.Prelude.{
  ℕ, ◌-◌, ◌/◌, ◌≤◌, ◌<◌, ◌≡◌, refl, Bool, true, false, none, some, List, [], ◌∷◌, arith, All,
  length, ◌++◌, ap, suc,
}
use host_container.Sockets.Metrics.{
  word, sub64, StatsResponse, MetricsSnapshot, build_snapshot, metric_loop, system_delta,
  cpu_percentage, snapshot_of, usage_delta, after,
}

-- Two readings of 64 bits, the second not below the first.
pub record IsAdvancing (before after : ℕ) : Type 0 where
  pub rises : before ≤ after
  pub fits : after < word

sub64_lem : (a b : ℕ) → IsAdvancing b a → sub64 a b ≡ a - b
sub64_lem a b v = let r = v.rises in let f = v.fits in omega arith

-- The container used less time than the machine's processors together.
pub record IsShared (s : StatsResponse) : Type 0 where
  pub usage : IsAdvancing s.precpu_stats.total_usage s.cpu_stats.total_usage
  pub system : IsAdvancing s.precpu_stats.system_usage s.cpu_stats.system_usage
  pub less :
      s.cpu_stats.total_usage - s.precpu_stats.total_usage
      < s.cpu_stats.system_usage - s.precpu_stats.system_usage

-- The time of the machine's processors is as it was.
abbrev pub IsStill : StatsResponse → Type 0
IsStill s =
    (s.cpu_stats.system_usage ≡ s.precpu_stats.system_usage) × (s.cpu_stats.system_usage < word)

abbrev pub ShowsNone : MetricsSnapshot → Type 0
ShowsNone m = m.cpu ≡ 0

cpu_percentage_zero : (a b n : ℕ) → a < b → cpu_percentage a b n ≡ 0
unfolding cpu_percentage
cpu_percentage_zero a b n h =
    let none_whole : a / b ≡ 0 = grind arith in rw none_whole (omega arith)

shared :
    (s : StatsResponse)
    → IsShared s
    → (build_snapshot s ≡ some (snapshot_of s)) × ShowsNone (snapshot_of s)
unfolding build_snapshot
shared s v =
    let l = v.less in
    let u = sub64_lem s.cpu_stats.total_usage s.precpu_stats.total_usage v.usage in
    let t = sub64_lem s.cpu_stats.system_usage s.precpu_stats.system_usage v.system in
    let below : usage_delta s < system_delta s = omega arith in
    (
      ground arith,
      cpu_percentage_zero (usage_delta s) (system_delta s) s.cpu_stats.online_cpus below,
    )

still : (s : StatsResponse) → IsStill s → build_snapshot s ≡ none
unfolding build_snapshot
still s (e, h) = let zero_delta : system_delta s ≡ 0 = omega arith in ground arith

-- Such a reading, whose snapshot the client can be sent.
abbrev pub IsWatched : StatsResponse × Bool → Type 0
IsWatched (s, is_sent) = IsShared s × (is_sent ≡ true)

-- While the container uses less than the machine's processors together, and the client can be sent
-- what is written, it is sent one snapshot for each reading, and each shows a CPU of 0; the first
-- reading after which the machine's time has not moved makes the handler panic.
pub metric_loop-ShowsNone :
    (vs : List (StatsResponse × Bool)) (v : StatsResponse) (is_sent : Bool)
    (rest : List (StatsResponse × Bool))
    → All IsWatched vs
    → IsStill v
    → (length (metric_loop vs).frames ≡ length vs)
      × All ShowsNone (metric_loop vs).frames
      × ((metric_loop vs).panicked ≡ false)
      × (metric_loop (vs ++ (v, is_sent) ∷ rest)
          ≡ record { frames = (metric_loop vs).frames; panicked = true })
unfolding metric_loop
metric_loop-ShowsNone [] v is_sent rest a h = (refl, tt, refl, rw (still v h, metric_loop) refl)
metric_loop-ShowsNone ((s, true) ∷ vs) v is_sent rest a h =
    let (one, shows) = shared s a.0.0 in
    let (len, all, ends, panics) = metric_loop-ShowsNone vs v is_sent rest a.1 h in
    rw (one, metric_loop) (ap suc len, (shows, all), ends, ap (after (snapshot_of s)) panics)
metric_loop-ShowsNone ((s, false) ∷ vs) v is_sent rest a h = absurd (cc (a.0.1))
