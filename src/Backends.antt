-- ===== src/Backends.antt =====
-- src/backends: one module for each implementation's init function.
pub mod Openmpi
pub mod Mpich
pub mod Intelmpi
pub mod Msmpi
pub mod Parity
pub mod Wrapped
