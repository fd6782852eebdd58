-- ===== src/AuditChain/Tests.antt =====
-- The chain at a concrete log, with a hash that only measures the text.
use legalise.Base.{true, ◌≡◌, ◌≢◌, refl, ap, ◌∙◌, ◌⊎◌, List, [], ◌∷◌, map, none, some, length}
use legalise.Base.Text.{Text, codes, str, ℤ}
use legalise.AuditChain.Canonical.{Datetime, AuditEntry, entry_prefix}
use legalise.AuditChain.Injective.{prefixed-injective}
use legalise.AuditChain.Json.{string, Dict}
use legalise.AuditChain.Verifier.{ChainDoc, AuditFile, verify, supported_format, cross_check}
use legalise.AuditChain.Tamper.{Collision, covered, verify-tamper_evident}
use legalise.AuditChain.Store.{Store, insert_entry, export_chain}
use legalise.AuditChain.Reread.{compared}
use legalise.AuditChain.Links.{Logged, empty, insert}
use legalise.AuditChain.RoundTrip.{verify-export_chain}
use legalise.AuditChain.Online.{verify_audit_chain}
use legalise.AuditChain.Agrees.{verify-verify_audit_chain}
use legalise.AuditChain.Accepted.{verify_audit_chain-Logged}

abbrev measure : Text → Text
measure t = str (length t)

abbrev noon : Datetime
noon = record {
  year = 2026;
  month = 5;
  day = 4;
  hour = 12;
  minute = 0;
  second = 0;
  microsecond = 7;
}

abbrev opened : AuditEntry
opened = record {
  id = codes "a1";
  timestamp = noon;
  actor_id = none;
  matter_id = some (codes "m");
  action = codes "matter.open";
  module_name = none;
  resource_type = none;
  resource_id = none;
  model_used = none;
  prompt_hash = none;
  response_hash = none;
  token_count = some (ℤ.pos 12);
  latency_ms = none;
  tokens_in = none;
  tokens_out = none;
  cost_micros = some (ℤ.negsuc 2);
  currency = none;
  provider = none;
  model_id = none;
  payload = codes "{}";
}

abbrev signed_in : AuditEntry
signed_in = record opened { id = codes "a2"; matter_id = none; action = codes "login" }

abbrev closed : AuditEntry
closed = record opened { id = codes "a3"; action = codes "matter.close" }

abbrev no_log : Store
no_log = record { audit_entries = []; audit_chain = [] }

abbrev then_log : AuditEntry → Store → Store
then_log entry store = elim (insert_entry measure entry store) [
  | none ↦ no_log
  | some later ↦ later
]

abbrev log : Store
log = then_log closed (then_log signed_in (then_log opened no_log))

filled : codes "{}" ≢ []
filled h = cc

log-Logged : Logged measure log
unfolding insert_entry
log-Logged =
    insert closed (insert signed_in (insert opened empty filled refl) filled refl) filled refl

-- The matter's second link follows its first one, across the link of the other scope.
two_links : map (λ c. c.scope_sequence) log.audit_chain ≡ 2 ∷ 1 ∷ 1 ∷ []
unfolding insert_entry
two_links = refl

abbrev pack : ChainDoc
pack = export_chain (codes "m") log

verify-export_chain_example :
    verify measure (some pack) AuditFile.absent ≡ some (compared pack.entries AuditFile.absent)
verify-export_chain_example = verify-export_chain measure (codes "m") AuditFile.absent log-Logged

compared_absent : (ds : List Dict) → compared ds AuditFile.absent ≡ []
unfolding cross_check
compared_absent [] = refl
compared_absent (d ∷ ds) = refl

passes : verify measure (some pack) AuditFile.absent ≡ some []
passes =
    verify-export_chain measure (codes "m") AuditFile.absent log-Logged
    ∙ ap some (compared_absent pack.entries)

verify-tamper_evident_example :
    (map covered pack.entries ≡ map covered pack.entries) ⊎ Collision measure
verify-tamper_evident_example =
    verify-tamper_evident measure pack pack AuditFile.absent AuditFile.absent passes passes refl

prefixed-injective_example : some (codes "a\n1:b") ∷ none ∷ [] ≡ some (codes "a\n1:b") ∷ none ∷ []
prefixed-injective_example =
    prefixed-injective entry_prefix (some (codes "a\n1:b") ∷ none ∷ [])
      (some (codes "a\n1:b") ∷ none ∷ []) refl

-- An emptied chain passes, whatever audit.json holds.
emptied :
    (rows : List Dict)
    → verify measure
        (some (record { format = string supported_format; entries = []; head = none }))
        (AuditFile.rows rows)
      ≡ some []
unfolding verify
emptied rows = refl

verify_audit_chain-Logged_example :
    ((verify_audit_chain measure (codes "m") log).issues ≡ [])
    × ((verify_audit_chain measure (codes "m") log).is_ok ≡ true)
verify_audit_chain-Logged_example = verify_audit_chain-Logged measure (codes "m") log-Logged

verify-verify_audit_chain_example :
    verify measure (some pack) AuditFile.absent ≡ some (compared pack.entries AuditFile.absent)
verify-verify_audit_chain_example =
    verify-verify_audit_chain measure log (codes "m") AuditFile.absent
      (verify_audit_chain-Logged measure (codes "m") log-Logged).0
