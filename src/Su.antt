-- ===== src/Su.antt =====
-- global/e2-su-2.2.c, the setuid helper: its effects (Run), its commands (Commands) and `main`,
-- and what holds of every run.
pub mod Run
pub mod Job
pub mod Commands
pub mod Main
pub mod Order
pub mod Outcomes
