-- ===== src/Tests.antt =====
-- Runs of the theorems at concrete inputs.
mod RedisRuns
mod ValuesRuns
mod StringRuns
mod MapRuns
mod LockRuns
mod ToolRuns
mod SystemRuns
mod ServerData
mod ServerRuns
mod ConnectionRuns
