-- ===== src/AuditChain.antt =====
-- The audit hash chain: backend/app/core/audit_chain.py, the trigger of
-- backend/alembic/versions/0030_audit_hash_chain.py, the chain part of backend/app/core/exports.py
-- and the offline verifier backend/app/core/export_chain_verifier.py.
-- SHA-256 is a parameter of every definition that hashes.
pub mod Canonical
pub mod Injective
pub mod Json
pub mod Verifier
pub mod Tamper
pub mod Store
pub mod Reread
pub mod Links
pub mod RoundTrip
pub mod Online
pub mod Agrees
pub mod Accepted
mod Tests
