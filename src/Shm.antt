-- ===== src/Shm.antt =====
-- src/shm.c: the tables in shared memory.
pub mod Slots
pub mod Probe
pub mod Target
pub mod Hash
pub mod State
pub mod Flagged
pub mod Nonce
pub mod Strike
pub mod Safeguard
pub mod Bloom
