-- ===== src/AuditChain/Store.antt =====
-- The audit log with its chain: the trigger that appends a link for each entry
-- (backend/alembic/versions/0030_audit_hash_chain.py) and the export of a matter's chain
-- (backend/app/core/exports.py). Rows are kept newest first. The advisory lock makes the appends of
-- one scope a sequence.
use Prim.Native.String.{String}
use legalise.Base.{
  ℕ, ◌+◌, Bool, true, false, List, [], ◌∷◌, ◌++◌, Option, none, some, if◌then◌else◌, ltb, length,
  is_none,
}
use legalise.Base.Text.{Text, codes, text_eq}
use legalise.AuditChain.Canonical.{
  AuditEntry, from_row, entry_payload_text, canonical_fields, entry_hash, chain_link_hash,
}
use legalise.AuditChain.Json.{Json, null, string, number, Dict, get}
use legalise.AuditChain.Verifier.{ChainDoc, supported_format}

pub record AuditChainEntry : Type 0 where
  pub audit_entry_id : Text
  pub matter_id : Option Text
  pub scope_sequence : ℕ
  pub previous_chain_hash : Option Text
  pub entry_hash : Text
  pub chain_hash : Text
  pub chain_version : ℕ

pub record Store : Type 0 where
  pub audit_entries : List AuditEntry
  pub audit_chain : List AuditChainEntry

-- The scope's type follows from its matter.
abbrev pub scope_type : Option Text → Text
scope_type none = codes "system"
scope_type (some matter) = codes "matter"

abbrev pub same_scope : Option Text → Option Text → Bool
same_scope none none = true
same_scope (some a) (some b) = text_eq a b
same_scope _ _ = false

-- `ORDER BY scope_sequence DESC LIMIT 1` over the rows of a scope.
unfoldable pub latest : Option Text → List AuditChainEntry → Option AuditChainEntry
latest scope [] = none
latest scope (row ∷ older) =
    let rest = latest scope older in
    if same_scope row.matter_id scope
    then elim rest [
      | none ↦ some row
      | some other ↦ if ltb row.scope_sequence other.scope_sequence then some other else some row
    ]
    else rest

unfoldable pub find_entry : Text → List AuditEntry → Option AuditEntry
find_entry id [] = none
find_entry id (entry ∷ more) = if text_eq entry.id id then some entry else find_entry id more

abbrev pub sequence_of : Option AuditChainEntry → ℕ
sequence_of none = 0
sequence_of (some row) = row.scope_sequence

abbrev pub hash_of : Option AuditChainEntry → Option Text
hash_of none = none
hash_of (some row) = some row.chain_hash

module _ (sha256 : Text → Text) where
  -- The link that `audit_chain_append_for_entry` inserts.
  unfoldable pub link_for_entry : AuditEntry → List AuditChainEntry → AuditChainEntry
  unfolding latest from_row
  link_for_entry entry chain =
      let previous = latest entry.matter_id chain in
      let sequence = sequence_of previous + 1 in
      let hash = entry_hash sha256 (from_row entry entry.payload) in
      record {
        audit_entry_id = entry.id;
        matter_id = entry.matter_id;
        scope_sequence = sequence;
        previous_chain_hash = hash_of previous;
        entry_hash = hash;
        chain_hash =
            chain_link_hash sha256 1 (scope_type entry.matter_id) entry.matter_id sequence entry.id
              (hash_of previous) hash;
        chain_version = 1;
      }

  -- An insert into `audit_entries`, whose primary key is `id`, with the trigger.
  unfoldable pub insert_entry : AuditEntry → Store → Option Store
  unfolding find_entry link_for_entry
  insert_entry entry store =
      if is_none (find_entry entry.id store.audit_entries)
      then some (record {
        audit_entries = entry ∷ store.audit_entries;
        audit_chain = link_for_entry entry store.audit_chain ∷ store.audit_chain;
      })
      else none

-- The rows of a scope, `ORDER BY scope_sequence`.
unfoldable pub in_order : AuditChainEntry → List AuditChainEntry → List AuditChainEntry
in_order row [] = row ∷ []
in_order row (r ∷ rs) =
    let rest = in_order row rs in
    if ltb row.scope_sequence r.scope_sequence then row ∷ r ∷ rs else r ∷ rest

abbrev pub scope_rows : Option Text → List AuditChainEntry → List AuditChainEntry
scope_rows scope [] = []
scope_rows scope (row ∷ rows) =
    let rest = scope_rows scope rows in if same_scope row.matter_id scope then row ∷ rest else rest

unfoldable pub order_by_sequence : List AuditChainEntry → List AuditChainEntry
unfolding in_order
order_by_sequence [] = []
order_by_sequence (row ∷ rows) = in_order row (order_by_sequence rows)

abbrev pub json_of : Option Text → Json
json_of none = null
json_of (some s) = string s

abbrev pub json_fields : List (String × Option Text) → Dict
json_fields [] = []
json_fields ((name, value) ∷ rest) = (name, json_of value) ∷ json_fields rest

-- One element of `entries` in audit_chain.json.
unfoldable pub chain_entry : AuditChainEntry → AuditEntry → Dict
unfolding canonical_fields from_row entry_payload_text
chain_entry chain entry =
    json_fields (canonical_fields (from_row entry (entry_payload_text entry)))
    ++ ("scope_type", string (scope_type chain.matter_id))
      ∷ ("scope_sequence", number chain.scope_sequence)
      ∷ ("chain_version", number chain.chain_version)
      ∷ ("previous_chain_hash", json_of chain.previous_chain_hash)
      ∷ ("entry_hash", string chain.entry_hash)
      ∷ ("chain_hash", string chain.chain_hash)
      ∷ []

-- The inner join with `audit_entries`.
unfoldable pub chain_entries : List AuditEntry → List AuditChainEntry → List Dict
unfolding chain_entry find_entry
chain_entries entries [] = []
chain_entries entries (chain ∷ chains) =
    let rest = chain_entries entries chains in
    elim (find_entry chain.audit_entry_id entries) [
      | none ↦ rest
      | some entry ↦ chain_entry chain entry ∷ rest
    ]

-- `chain_entries[-1]`
abbrev pub last_of : List Dict → Option Dict
last_of [] = none
last_of (e ∷ []) = some e
last_of (e ∷ f ∷ es) = last_of (f ∷ es)

unfoldable pub chain_head : List Dict → Option Dict
chain_head entries = elim (last_of entries) [
  | none ↦ none
  | some last ↦ some (
      ("chain_hash", get "chain_hash" last)
      ∷ ("scope_sequence", get "scope_sequence" last)
      ∷ ("entry_count", number (length entries))
      ∷ ("timestamp", get "timestamp" last)
      ∷ [])
]

unfoldable pub export_chain : Text → Store → ChainDoc
unfolding order_by_sequence chain_entries chain_head
export_chain matter_id store =
    let entries =
      chain_entries store.audit_entries
        (order_by_sequence (scope_rows (some matter_id) store.audit_chain)) in
    record { format = string supported_format; entries = entries; head = chain_head entries }
