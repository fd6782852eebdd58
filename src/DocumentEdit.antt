-- ===== src/DocumentEdit.antt =====
-- Accepting and rejecting tracked changes (backend/app/modules/document_edit/resolver.py).
pub mod Substitution
pub mod Resolver
pub mod Once
pub mod Resolved
mod Tests
