-- ===== src/AuditChain/Reread.antt =====
-- What the verifier reads from an exported entry, and the order in which the entries are exported.
use legalise.Base.{
  ℕ, ◌+◌, ◌<◌, ◌≤◌, ◌≡◌, refl, ap, inl, inr, true, not, List, [], ◌∷◌, ◌++◌, Option, none, some,
  All, if◌then◌else◌, ltb, arith, Bool-cases, Option-cases, ==_refl,
}
use legalise.Base.Text.{Text, str, text_eq, text_eq_refl, eq_of_text_eq}
use legalise.AuditChain.Canonical.{
  AuditEntry, from_row, entry_payload_text, canonical_fields, values,
}
use legalise.AuditChain.Json.{
  Json, null, string, number, json_eq, str_json, opt_str, Dict, item, get,
}
use legalise.AuditChain.Verifier.{
  Problem, report_if, AuditFile, cross_check, entry_values, link_values,
}
use legalise.AuditChain.Store.{
  AuditChainEntry, scope_type, same_scope, find_entry, sequence_of, in_order, json_of, chain_entry,
  chain_entries, last_of,
}

pub json_eq_refl : (a : Json) → json_eq a a ≡ true
json_eq_refl null = refl
json_eq_refl (string s) = text_eq_refl s
json_eq_refl (number n) = ==_refl n

pub opt_str-json_of : (o : Option Text) → opt_str (json_of o) ≡ o
unfolding opt_str
opt_str-json_of none = refl
opt_str-json_of (some s) = refl

-- The verifier reads the canonical fields back.
pub entry_values-chain_entry :
    (chain : AuditChainEntry) (entry : AuditEntry)
    → entry_values (chain_entry chain entry)
      ≡ values (canonical_fields (from_row entry (entry_payload_text entry)))
unfolding chain_entry get canonical_fields opt_str
entry_values-chain_entry chain entry = simp opt_str-json_of

-- What the verifier reads by name.
module _ (chain : AuditChainEntry) (entry : AuditEntry) where
  pub read_sequence : get "scope_sequence" (chain_entry chain entry) ≡ number chain.scope_sequence
  unfolding get chain_entry canonical_fields
  read_sequence = refl

  pub read_previous :
      get "previous_chain_hash" (chain_entry chain entry) ≡ json_of chain.previous_chain_hash
  unfolding get chain_entry canonical_fields
  read_previous = refl

  pub read_entry_hash : get "entry_hash" (chain_entry chain entry) ≡ string chain.entry_hash
  unfolding get chain_entry canonical_fields
  read_entry_hash = refl

  pub read_chain_hash : get "chain_hash" (chain_entry chain entry) ≡ string chain.chain_hash
  unfolding get chain_entry canonical_fields
  read_chain_hash = refl

  pub read_link :
      (hash : Text)
      → link_values (chain_entry chain entry) hash
        ≡ some (
            some (str chain.chain_version)
            ∷ some (scope_type chain.matter_id)
            ∷ entry.matter_id
            ∷ some (str chain.scope_sequence)
            ∷ some entry.id
            ∷ chain.previous_chain_hash
            ∷ some hash
            ∷ [])
  unfolding link_values item get chain_entry canonical_fields str_json
  read_link hash = simp opt_str-json_of

abbrev pub first : List AuditChainEntry → Option AuditChainEntry
first [] = none
first (row ∷ rows) = some row

-- The comparison with audit.json, which only a chain with entries gets.
abbrev pub compared : List Dict → AuditFile → List Problem
compared [] audit = []
compared (e ∷ es) audit = cross_check (e ∷ es) audit

pub clean : (a b : Json) (p : Problem) → a ≡ b → report_if (not (json_eq a b)) p ≡ []
clean a b p h = rw (h, json_eq_refl b)

pub in_order-last :
    (row : AuditChainEntry) (n : ℕ) (rs : List AuditChainEntry)
    → All (λ r. r.scope_sequence ≤ n) rs
    → n < row.scope_sequence
    → in_order row rs ≡ rs ++ row ∷ []
unfolding in_order
in_order-last row n [] all h = refl
in_order-last row n (r ∷ rs) all h = ground (arith, in_order-last row n rs all.1 h)

pub All-mono :
    (m n : ℕ) (rs : List AuditChainEntry)
    → m ≤ n
    → All (λ r. r.scope_sequence ≤ m) rs
    → All (λ r. r.scope_sequence ≤ n) rs
All-mono m n [] h all = tt
All-mono m n (r ∷ rs) h all = (omega (arith, all.0), All-mono m n rs h all.1)

pub All-snoc :
    (n : ℕ) (rs : List AuditChainEntry) (row : AuditChainEntry)
    → All (λ r. r.scope_sequence ≤ n) rs
    → row.scope_sequence ≤ n
    → All (λ r. r.scope_sequence ≤ n) (rs ++ row ∷ [])
All-snoc n [] row all h = (h, tt)
All-snoc n (r ∷ rs) row all h = (all.0, All-snoc n rs row all.1 h)

pub chain_entries-snoc :
    (entries : List AuditEntry) (rows : List AuditChainEntry) (row : AuditChainEntry)
    (entry : AuditEntry)
    → find_entry row.audit_entry_id entries ≡ some entry
    → chain_entries entries (rows ++ row ∷ [])
      ≡ chain_entries entries rows ++ chain_entry row entry ∷ []
unfolding chain_entries
chain_entries-snoc entries [] row entry found = rw (found, chain_entries)
chain_entries-snoc entries (r ∷ rows) row entry found =
    elim (Option-cases (find_entry r.audit_entry_id entries)) [
      | inl missing ↦ rw (missing, chain_entries, chain_entries-snoc entries rows row entry found)
      | inr (e, there) ↦ rw (there, chain_entries, chain_entries-snoc entries rows row entry found)
    ]

pub newest :
    (row : AuditChainEntry) (o : Option AuditChainEntry)
    → row.scope_sequence ≡ sequence_of o + 1
    → elim o [
      | none ↦ some row
      | some other ↦ if ltb row.scope_sequence other.scope_sequence then some other else some row
    ]
      ≡ some row
newest row none h = refl
newest row (some other) h = ground arith

-- A new entry does not hide an old one.
pub find-later :
    (new entry : AuditEntry) (id : Text) (entries : List AuditEntry)
    → find_entry new.id entries ≡ none
    → find_entry id entries ≡ some entry
    → find_entry id (new ∷ entries) ≡ some entry
unfolding find_entry
find-later new entry id entries absent found = elim (Bool-cases (text_eq new.id id)) [
  | inr other ↦ rw other found
  | inl same ↦ cc (absent, found, eq_of_text_eq new.id id same)
]

pub same_scope-eq : (a b : Option Text) → same_scope a b ≡ true → a ≡ b
same_scope-eq none none h = refl
same_scope-eq (some a) (some b) h = ap some (eq_of_text_eq a b h)
same_scope-eq none (some b) h = cc
same_scope-eq (some a) none h = cc

pub same_scope_refl : (a : Option Text) → same_scope a a ≡ true
same_scope_refl none = refl
same_scope_refl (some a) = text_eq_refl a

pub find-new :
    (entry : AuditEntry) (entries : List AuditEntry)
    → find_entry entry.id (entry ∷ entries) ≡ some entry
unfolding find_entry
find-new entry entries = rw (text_eq_refl entry.id)

pub last_of-snoc : (ds : List Dict) (d : Dict) → last_of (ds ++ d ∷ []) ≡ some d
last_of-snoc [] d = refl
last_of-snoc (e ∷ []) d = refl
last_of-snoc (e ∷ f ∷ ds) d = last_of-snoc (f ∷ ds) d
