-- ===== src/Lifecycle.antt =====
-- src/core.c and src/mpit.c: the state of the library as a whole, and the calls that change it.
pub mod State
pub mod Invariant
pub mod References
pub mod Loading
pub mod Init
pub mod Mpit
pub mod Query
pub mod PathCheck
pub mod Versions
pub mod Keeps
pub mod Starts
pub mod Ends
pub mod Traces
pub mod Faults
pub mod Outcomes
pub mod Tools
pub mod Final
pub mod Forever
pub mod ShutDown
pub mod Order
