-- ===== src/AuditChain/Online.antt =====
-- The check of a matter's chain in the database: verify_audit_chain of
-- backend/app/core/audit_chain.py, called with a matter.
use legalise.Base.{
  ℕ, ◌+◌, Bool, true, false, List, [], ◌∷◌, ◌++◌, Option, none, some, ◌==◌, if◌then◌else◌, length,
}
use legalise.Base.Text.{Text, text_eq}
use legalise.AuditChain.Canonical.{
  AuditEntry, from_row, entry_payload_text, entry_hash, chain_link_hash,
}
use legalise.AuditChain.Store.{
  AuditChainEntry, Store, scope_type, same_scope, find_entry, sequence_of, hash_of, scope_rows,
  order_by_sequence,
}

-- AuditChainIssue: the code with the entry of the row, or with the two numbers.
pub data AuditChainIssue : Type 0 where
  count_mismatch : ℕ → ℕ → AuditChainIssue
  unsupported_chain_version sequence_gap previous_hash_mismatch : Text → AuditChainIssue
  missing_audit_entry scope_mismatch entry_hash_mismatch chain_hash_mismatch :
      Text → AuditChainIssue

pub record AuditChainVerification : Type 0 where
  pub is_ok : Bool
  pub audit_entry_count : ℕ
  pub chain_entry_count : ℕ
  pub scopes_verified : ℕ
  pub issues : List AuditChainIssue

-- `SELECT count(*) FROM audit_entries WHERE matter_id = …`
unfoldable pub count_entries : Option Text → List AuditEntry → ℕ
count_entries scope [] = 0
count_entries scope (entry ∷ entries) =
    (if same_scope entry.matter_id scope then 1 else 0) + count_entries scope entries

abbrev pub unless : Bool → AuditChainIssue → List AuditChainIssue
unless true issue = []
unless false issue = issue ∷ []

abbrev pub is_no_issue : List AuditChainIssue → Bool
is_no_issue [] = true
is_no_issue (_ ∷ _) = false

abbrev scope_count : List AuditChainEntry → ℕ
scope_count [] = 0
scope_count (_ ∷ _) = 1

module _ (sha256 : Text → Text) where
  abbrev pub check_joined : AuditChainEntry → Option AuditEntry → List AuditChainIssue
  check_joined chain none = missing_audit_entry chain.audit_entry_id ∷ []
  check_joined chain (some entry) =
      unless (same_scope chain.matter_id entry.matter_id) (scope_mismatch chain.audit_entry_id)
      ++ (unless
            (text_eq chain.entry_hash
              (entry_hash sha256 (from_row entry (entry_payload_text entry))))
            (entry_hash_mismatch chain.audit_entry_id)
          ++ unless
              (text_eq chain.chain_hash (
                chain_link_hash sha256 chain.chain_version (scope_type chain.matter_id)
                  chain.matter_id chain.scope_sequence chain.audit_entry_id
                  chain.previous_chain_hash chain.entry_hash))
              (chain_hash_mismatch chain.audit_entry_id))

  -- The issues of one row after the row before it in its scope, and of its entry.
  unfoldable pub check_row :
      Option AuditChainEntry → AuditChainEntry → Option AuditEntry → List AuditChainIssue
  check_row previous chain entry =
      unless (chain.chain_version == 1) (unsupported_chain_version chain.audit_entry_id)
      ++ (unless (chain.scope_sequence == sequence_of previous + 1)
            (sequence_gap chain.audit_entry_id)
          ++ (unless (same_scope chain.previous_chain_hash (hash_of previous))
                (previous_hash_mismatch chain.audit_entry_id)
              ++ check_joined chain entry))

  -- The loop; all rows are of one scope, so one row is the previous one.
  unfoldable pub check_rows :
      List AuditEntry → Option AuditChainEntry → List AuditChainEntry → List AuditChainIssue
  unfolding check_row find_entry
  check_rows entries previous [] = []
  check_rows entries previous (chain ∷ chains) =
      check_row previous chain (find_entry chain.audit_entry_id entries)
      ++ check_rows entries (some chain) chains

  unfoldable pub verify_audit_chain : Text → Store → AuditChainVerification
  unfolding count_entries check_rows order_by_sequence
  verify_audit_chain matter_id store =
      let rows = scope_rows (some matter_id) store.audit_chain in
      let audit_count = count_entries (some matter_id) store.audit_entries in
      let issues =
        unless (audit_count == length rows) (count_mismatch audit_count (length rows))
        ++ check_rows store.audit_entries none (order_by_sequence rows) in
      record {
        is_ok = is_no_issue issues;
        audit_entry_count = audit_count;
        chain_entry_count = length rows;
        scopes_verified = scope_count rows;
        issues = issues;
      }
