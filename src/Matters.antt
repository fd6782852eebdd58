-- ===== src/Matters.antt =====
-- Jobs on a matter, and the end of a matter: deletion by its owner, and by the retention sweep.
pub mod Jobs
pub mod Lifecycle
pub mod Sweep
mod Settled
mod Purged
mod Swept
mod Tests
