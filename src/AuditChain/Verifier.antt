-- ===== src/AuditChain/Verifier.antt =====
-- The offline verifier (backend/app/core/export_chain_verifier.py), on the two JSON files of a pack.
-- A problem stands for its message. `none` is an exception that leaves the program.
use Prim.Native.String.{String}
use legalise.Base.{
  ℕ, suc, Bool, false, not, ◌||◌, List, [], ◌∷◌, ◌++◌, map, Option, none, some, if◌then◌else◌,
  length,
}
use legalise.Base.Text.{Text, codes, text_eq}
use legalise.AuditChain.Canonical.{prefixed, entry_prefix, link_prefix}
use legalise.AuditChain.Json.{
  Json, null, string, number, json_eq, str_json, opt_str, Dict, item, get,
}

abbrev pub supported_format : Text
supported_format = codes "legalise-audit-chain-export-v1"

abbrev pub entry_hash_fields : List String
entry_hash_fields =
    "id" ∷ "timestamp" ∷ "actor_id" ∷ "matter_id" ∷ "action" ∷ "module" ∷ "resource_type"
    ∷ "resource_id" ∷ "model_used" ∷ "prompt_hash" ∷ "response_hash" ∷ "token_count" ∷ "latency_ms"
    ∷ "tokens_in" ∷ "tokens_out" ∷ "cost_micros" ∷ "currency" ∷ "provider" ∷ "model_id"
    ∷ "payload_text" ∷ []

-- What the loop of `entry_hash` hands to `_field`.
abbrev pub entry_values : Dict → List (Option Text)
entry_values entry = map (λ name. opt_str (get name entry)) entry_hash_fields

infixl 5 ◌>>=◌
abbrev pub ◌>>=◌ {ℓ κ} : {A : Type ℓ} {B : Type κ} → Option A → (A → Option B) → Option B
none >>= f = none
some a >>= f = f a

-- The parts of the link, of which four are read by subscript.
unfoldable pub link_values : Dict → Text → Option (List (Option Text))
link_values entry computed_entry_hash = do
  version ← item "chain_version" entry
  scope ← item "scope_type" entry
  sequence ← item "scope_sequence" entry
  id ← item "id" entry
  some (
      some (str_json version)
      ∷ some (str_json scope)
      ∷ opt_str (get "matter_id" entry)
      ∷ some (str_json sequence)
      ∷ some (str_json id)
      ∷ opt_str (get "previous_chain_hash" entry)
      ∷ some computed_entry_hash
      ∷ [])

pub data Problem : Type 0 where
  could_not_read unsupported_format : Problem
  head_without_entries entries_without_head : Problem
  sequence_gap previous_mismatch entry_hash_mismatch chain_hash_mismatch : ℕ → Problem
  head_mismatch count_mismatch : Problem
  audit_unreadable : Problem
  missing_from_chain missing_from_audit : List Text → Problem

pub record ChainDoc : Type 0 where
  pub format : Json
  pub entries : List Dict
  pub head : Option Dict

-- `audit.json`, which may be absent or broken, or holds rows.
pub data AuditFile : Type 0 where
  absent unreadable : AuditFile
  rows : List Dict → AuditFile

-- `problems.append(p)` if the test holds.
abbrev pub report_if : Bool → Problem → List Problem
report_if test p = if test then p ∷ [] else []

member : Text → List Text → Bool
member s [] = false
member s (t ∷ ts) = text_eq s t || member s ts

-- `a - b` of two sets; an element that `a` repeats is kept once.
unfoldable pub set_minus : List Text → List Text → List Text
unfolding member
set_minus [] others = []
set_minus (a ∷ more) others =
    let rest = set_minus more others in if member a others || member a more then rest else a ∷ rest

-- A problem for the ids of a set, if it has any.
abbrev report_ids : (List Text → Problem) → List Text → List Problem
report_ids p [] = []
report_ids p (id ∷ ids) = p (id ∷ ids) ∷ []

unfoldable pub cross_check : List Dict → AuditFile → List Problem
cross_check entries absent = []
cross_check entries unreadable = audit_unreadable ∷ []
cross_check entries (rows audit_rows) =
    let chain_ids = map (λ e. str_json (get "id" e)) entries in
    let audit_ids = map (λ r. str_json (get "id" r)) audit_rows in
    let missing = set_minus audit_ids chain_ids in
    let extra = set_minus chain_ids audit_ids in
    report_ids missing_from_chain missing ++ report_ids missing_from_audit extra

module _ (sha256 : Text → Text) where
  unfoldable pub entry_hash : Dict → Text
  entry_hash entry = sha256 (prefixed entry_prefix (entry_values entry))

  unfoldable pub chain_link_hash : Dict → Text → Option Text
  chain_link_hash entry computed_entry_hash = do
    parts ← link_values entry computed_entry_hash
    some (sha256 (prefixed link_prefix parts))

  -- One round of the loop, at `position`, after an entry with the chain hash `previous_hash`.
  unfoldable pub check_entry : ℕ → Json → Dict → Option (List Problem)
  check_entry position previous_hash entry = do
    computed_chain ← chain_link_hash entry (entry_hash entry)
    some (
        report_if (not (json_eq (get "scope_sequence" entry) (number position)))
          (sequence_gap position)
        ++ (report_if (not (json_eq (get "previous_chain_hash" entry) previous_hash))
              (previous_mismatch position)
            ++ (report_if (not (json_eq (get "entry_hash" entry) (string (entry_hash entry))))
                  (entry_hash_mismatch position)
                ++ report_if (not (json_eq (get "chain_hash" entry) (string computed_chain)))
                    (chain_hash_mismatch position))))

  -- The loop: the problems, and the last chain hash.
  unfoldable pub check_entries : ℕ → Json → List Dict → Option (List Problem × Json)
  check_entries position previous_hash [] = some ([], previous_hash)
  check_entries position previous_hash (entry ∷ entries) = do
    found ← check_entry position previous_hash entry
    (more, last) ← check_entries (suc position) (get "chain_hash" entry) entries
    some (found ++ more, last)

  unfoldable pub check_pack : List Dict → Option Dict → AuditFile → Option (List Problem)
  check_pack [] none audit = some []
  check_pack [] (some head) audit = some (head_without_entries ∷ [])
  check_pack (e ∷ es) none audit = some (entries_without_head ∷ [])
  check_pack (e ∷ es) (some head) audit = do
    (found, last) ← check_entries 1 null (e ∷ es)
    some (
        found
        ++ (report_if (not (json_eq (get "chain_hash" head) last)) head_mismatch
            ++ (report_if (not (json_eq (get "entry_count" head) (number (length (e ∷ es)))))
                  count_mismatch
                ++ cross_check (e ∷ es) audit)))

  -- `verify`; `none` for the document is a file that cannot be read or parsed.
  unfoldable pub verify : Option ChainDoc → AuditFile → Option (List Problem)
  unfolding check_pack
  verify none audit = some (could_not_read ∷ [])
  verify (some doc) audit =
      if json_eq doc.format (string supported_format)
      then check_pack doc.entries doc.head audit
      else some (unsupported_format ∷ [])

  -- The exit status of `main`; an exception exits with 1 too.
  unfoldable pub exit_status : Option ChainDoc → AuditFile → ℕ
  exit_status doc audit = elim (verify doc audit) [
    | none ↦ 1
    | some problems ↦ elim problems [ [] ↦ 0 | _ ∷ _ ↦ 1 ]
  ]
