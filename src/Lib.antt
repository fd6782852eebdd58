-- ===== src/Lib.antt =====
-- Verification of the core rules of Legalise, a workspace for legal matters.
--
-- The parts of the program, and the files that model them:
--
-- AuditChain: every row of the audit log has a link in a hash chain. The database trigger of
-- backend/alembic/versions/0030_audit_hash_chain.py appends it, backend/app/core/audit_chain.py renders
-- what is hashed, backend/app/core/exports.py writes a matter's chain into a pack, and
-- backend/app/core/export_chain_verifier.py checks the pack offline. Canonical holds the canonical
-- texts (AuditEntryCanonical, chain_link_canonical), Store the trigger and the export, Verifier the
-- offline program, with the JSON that it reads in Json, and Online the check of a matter's chain in the
-- database (verify_audit_chain). Injective, Tamper, Reread, Links, RoundTrip, Agrees and Accepted are
-- proofs. SHA-256 is a parameter of every definition that hashes, and nothing is assumed of it.
--
-- AdviceBoundary: backend/app/core/advice_boundary. Tiers holds the tables of tiers.py, Gate the
-- function check of gate.py with all its branches, its decision rows and its audit rows. Rules, Decides
-- and History are proofs.
--
-- PostureGate: backend/app/core/posture_gate.py, the privilege posture of a matter against the role of
-- the actor. It uses the roles of AdviceBoundary, as the source does.
--
-- TrustCeremony: the admission of a module. Signing models backend/app/core/signing.py and
-- backend/app/core/publishers.py, with Base64, ed25519 and the digest of a manifest as parameters.
-- Card is the permission card of backend/app/core/trust_ceremony.py, Machine its state machine, its
-- registry and the endpoint of backend/app/api/module_routes/install_ceremony.py that advances it.
-- Walk, Registry and Summary are proofs.
--
-- Chunking: backend/app/core/chunking.py. Texts are lists of code points, and the white space tests of
-- str.strip and of the regular expression are parameters. Bounds and Tiles are proofs.
--
-- Capabilities: the grants of backend/app/core/capabilities.py and the helper of
-- backend/app/core/phase1_runtime/capability_check.py. Grammar models the texts that name capabilities and the
-- capabilities that a module declares for a skill. Scopes and Revoked are proofs.
--
-- DocumentEdit: accepting and rejecting tracked changes, backend/app/modules/document_edit/resolver.py.
-- Substitution models the anchored replacement, Resolver the rows of one document, resolve_edit and
-- the version that closes another. Once and Resolved are proofs.
--
-- RateLimit: the sliding window of backend/app/core/rate_limit.py, with the limit and the client's
-- address as arguments. Window is proofs.
--
-- Expansion: the comparison of permission snapshots of backend/app/core/grants_lifecycle.py, which
-- decides whether an update of a module needs a new ceremony. Declared, Ranked, Accesses
-- and Covered are proofs.
--
-- StateMachine: backend/contrib/state_machine. Registry models registry.py, which checks and stores the
-- definitions that modules declare, and Runtime the requests of runtime.py with every branch, its rows
-- and its audit rows, on top of the capability checks of Capabilities. Valid, Accepts, Requests,
-- History, Registration, Moves, Reached, Permits and Routes are proofs.
--
-- Supervision: decisions of people. Review models backend/app/core/reviews.py and Signoff models
-- backend/app/core/signoff.py. Separated, Guarded, Decided, Visible and Window are proofs.
--
-- Matters: Jobs models backend/app/core/jobs.py and the task run_job of backend/app/worker.py, Lifecycle
-- the deletion of backend/app/core/matter_lifecycle.py, which revokes grants of Capabilities, and Sweep
-- backend/app/tools/retention_sweep.py. Settled, Purged and Swept are proofs.
--
-- SourceAnchors: the quote check and the anchors of backend/app/core/source_anchors.py. Split and Found are proofs.
--
-- Base: names of the libraries, Boolean tests, lists on native numbers, texts and the builtin str.
--
-- State is passed explicitly: a database session is a record of row lists, newest first, and a call
-- returns the new record. An exception is a value of the result. The one loop that is not structural
-- is the while loop of chunk_text: its fuel is the length of the text, and the theorem on it shows that
-- the loop is over by then. The decimal text of a number n is written in n + 1 rounds, which are
-- enough since each round divides by ten.
--
-- Not modelled: the user interface, the HTTP layer, the clients of language models and of other
-- services, the tables' declarations, and the other parts of the backend.
-- Concurrency is that of the database: the trigger's lock makes the appends of one scope a sequence.
pub mod Base
pub mod AuditChain
pub mod AdviceBoundary
pub mod Matters
pub mod PostureGate
pub mod Supervision
pub mod TrustCeremony
pub mod Chunking
pub mod Capabilities
pub mod DocumentEdit
pub mod RateLimit
pub mod Expansion
pub mod StateMachine
pub mod SourceAnchors
