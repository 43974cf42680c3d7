-- ===== src/Sockets/Metrics.antt =====
-- websocket/metricHandler.go: the snapshots of a container's use of the machine.
--
-- A counter is a `uint64`. The CPU of a snapshot is the integer that the code converts to a float.
pub mod Shares
use host_container.Prelude.{
  ℕ, ◌+◌, ◌-◌, ◌*◌, ◌/◌, ◌%◌, ◌^◌, Bool, true, false, Option, none, some, List, [], ◌∷◌, ◌++◌, ◌==◌,
  String, if◌then◌else◌,
}
use host_container.World.{Word, Outside, World, Action, ok, err, container_stats, call}
use host_container.Http.{is_given}
use host_container.Sockets.Upgrade.{Handshake, Outcome, failed, ended, with_connection}

abbrev pub word : ℕ
word = 2 ^ 64

-- `a - b` of a `uint64`.
abbrev pub sub64 : ℕ → ℕ → ℕ
sub64 a b = (a + word - b) % word

pub record CpuStats : Type 0 where
  pub total_usage : ℕ
  pub system_usage : ℕ
  pub online_cpus : ℕ

pub record MemoryStats : Type 0 where
  pub usage : ℕ
  pub limit : ℕ
  pub inactive_file : Option ℕ  -- the entry of the map `Stats`

pub record StatsResponse : Type 0 where
  pub read : ℕ
  pub cpu_stats : CpuStats
  pub precpu_stats : CpuStats
  pub memory_stats : MemoryStats

pub record MetricsSnapshot : Type 0 where
  pub timestamp : ℕ
  pub cpu : ℕ
  pub memory_used : ℕ
  pub memory_total : ℕ
  pub network_rx : ℕ
  pub network_tx : ℕ
  pub block_read : ℕ
  pub block_write : ℕ

abbrev pub or_zero : Option ℕ → ℕ
or_zero none = 0
or_zero (some n) = n

-- `deltaTotalUsage` and `deltaSystemCpuUsage`
abbrev pub usage_delta : StatsResponse → ℕ
usage_delta s = sub64 s.cpu_stats.total_usage s.precpu_stats.total_usage

abbrev pub system_delta : StatsResponse → ℕ
system_delta s = sub64 s.cpu_stats.system_usage s.precpu_stats.system_usage

-- `(deltaTotalUsage/deltaSystemCpuUsage) * uint64(OnlineCPUs) * 100`
unfoldable pub cpu_percentage : ℕ → ℕ → ℕ → ℕ
cpu_percentage usage system cpus = (usage / system * cpus % word * 100) % word

abbrev pub snapshot_of : StatsResponse → MetricsSnapshot
snapshot_of s = record {
  timestamp = s.read;
  cpu = cpu_percentage (usage_delta s) (system_delta s) s.cpu_stats.online_cpus;
  memory_used = sub64 s.memory_stats.usage (or_zero s.memory_stats.inactive_file);
  memory_total = s.memory_stats.limit;
  network_rx = 0;
  network_tx = 0;
  block_read = 0;
  block_write = 0;
}

-- A division by zero is a panic, `none`.
unfoldable pub build_snapshot : StatsResponse → Option MetricsSnapshot
build_snapshot current = if system_delta current == 0 then none else some (snapshot_of current)

-- What the client was sent, and whether the loop ended in a panic.
pub record Streamed : Type 0 where
  pub frames : List MetricsSnapshot
  pub panicked : Bool

abbrev pub after : MetricsSnapshot → Streamed → Streamed
after m s = record s { frames = m ∷ s.frames }

-- The loop of `WsHandler`: what is decoded in turn, and whether the client could be sent its snapshot.
-- After the last one decoding fails.
unfoldable pub metric_loop : List (StatsResponse × Bool) → Streamed
unfolding build_snapshot
metric_loop [] = record { frames = []; panicked = false }
metric_loop ((v, is_sent) ∷ vs) =
    let rest = metric_loop vs in
    elim (build_snapshot v) [
      | none ↦ record { frames = []; panicked = true }
      | some m ↦ if is_sent then after m rest else record { frames = []; panicked = false }
    ]

module _ (out : Outside) where
  -- `GetMetricOfContainer` of service/hostContainerService.go; the decoder is the caller's.
  unfoldable pub get_metric_of_container : String → Action (Unit {0})
  get_metric_of_container container_id = call out (container_stats container_id)

  unfoldable pub metrics_handler :
      Word → String → Handshake → List (StatsResponse × Bool) → World → Outcome Streamed × World
  metrics_handler raw container_id h vs =
      with_connection raw (is_given container_id) "containerId requis" h λ w.
        let (r, w') = get_metric_of_container container_id w in
        (elim r [ ok _ ↦ ended (metric_loop vs) | err e ↦ failed e ], w')
