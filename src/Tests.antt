-- ===== src/Tests.antt =====
-- Runs of the theorems at concrete inputs.
mod Wire
mod Text
mod Stats
mod Names
mod Live
mod Start
mod Ring
mod Screen
mod Neural
