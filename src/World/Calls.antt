-- ===== src/World/Calls.antt =====
-- A log to which a list of calls was added.
use host_container.World.{Event, World, logged}
use host_container.Prelude.{List, [], ◌∷◌}

abbrev pub log_all : List Event → World → World
log_all [] w = w
log_all (e ∷ es) w = log_all es (logged e w)
