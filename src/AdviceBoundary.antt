-- ===== src/AdviceBoundary.antt =====
-- The advice boundary, backend/app/core/advice_boundary/: the tiers with their transition rules, and
-- the gate that decides one requested tier and records its decision.
pub mod Tiers
pub mod Gate
pub mod Rules
pub mod Decides
pub mod History
mod Tests
