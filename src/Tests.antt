-- ===== src/Tests.antt =====
-- The theorems at concrete inputs.
pub mod Demo
mod Tables
mod Loading
mod Calls
mod Messages
mod Requests
mod Grids
mod Late
mod Standard
mod Statuses
mod Copies
mod Stale
