-- ===== src/TrustCeremony.antt =====
-- Module admission: the trust ceremony (backend/app/core/trust_ceremony.py), the signature check
-- that it opens with (backend/app/core/signing.py, backend/app/core/publishers.py) and the endpoint
-- that drives it (backend/app/api/module_routes/install_ceremony.py).
pub mod Signing
pub mod Card
pub mod Machine
pub mod Walk
pub mod Registry
pub mod Summary
mod Tests
