-- ===== src/Entry.antt =====
-- main.go and what it wires together.
pub mod Pages
pub mod Start
pub mod Stack
pub mod Routes
pub mod Serve
