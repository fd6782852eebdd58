-- ===== src/AuditChain/Canonical.antt =====
-- The canonical texts that the entry hash and the link hash are computed over
-- (backend/app/core/audit_chain.py).
use Prim.Native.String.{String}
use legalise.Base.{ℕ, ◌+◌, ◌-◌, suc, List, [], ◌∷◌, ◌++◌, map, Option, none, some, length}
use legalise.Base.Text.{Text, codes, str, ℤ, pos, negsuc}

-- `str` of an integer.
unfoldable pub str_int : ℤ → Text
str_int (pos n) = str n
str_int (negsuc n) = codes "-" ++ str (n + 1)

-- An instant, by the calendar fields of its UTC time: what `astimezone(UTC)` returns.
pub record Datetime : Type 0 where
  pub year : ℕ
  pub month : ℕ
  pub day : ℕ
  pub hour : ℕ
  pub minute : ℕ
  pub second : ℕ
  pub microsecond : ℕ

zeros : ℕ → Text
zeros ℕ.zero = []
zeros (suc n) = codes "0" ++ zeros n

pad : ℕ → ℕ → Text
unfolding zeros
pad w n = zeros (w - length (str n)) ++ str n

unfoldable pub timestamp_utc : Datetime → Text
unfolding pad
timestamp_utc t =
    pad 4 t.year
    ++ codes "-"
    ++ pad 2 t.month
    ++ codes "-"
    ++ pad 2 t.day
    ++ codes "T"
    ++ pad 2 t.hour
    ++ codes ":"
    ++ pad 2 t.minute
    ++ codes ":"
    ++ pad 2 t.second
    ++ codes "."
    ++ pad 6 t.microsecond
    ++ codes "Z"

abbrev pub newline : Text
newline = 10 ∷ []

-- `_field`: a length prefix, so that a value may hold any character.
unfoldable pub field : Option Text → Text
field none = codes "-1:"
field (some value) = str (length value) ++ (codes ":" ++ value)

-- `"\n".join(lines)`
unfoldable pub join_lines : List Text → Text
join_lines [] = []
join_lines (l ∷ []) = l
join_lines (l ∷ m ∷ ls) = l ++ (newline ++ join_lines (m ∷ ls))

abbrev pub entry_prefix : Text
entry_prefix = codes "audit-chain-entry-v1"

abbrev pub link_prefix : Text
link_prefix = codes "audit-chain-link-v1"

-- A row of `audit_entries`. A uuid is its text; `payload` is the row's `payload::text`.
pub record AuditEntry : Type 0 where
  pub id : Text
  pub timestamp : Datetime
  pub actor_id : Option Text
  pub matter_id : Option Text
  pub action : Text
  pub module_name : Option Text
  pub resource_type : Option Text
  pub resource_id : Option Text
  pub model_used : Option Text
  pub prompt_hash : Option Text
  pub response_hash : Option Text
  pub token_count : Option ℤ
  pub latency_ms : Option ℤ
  pub tokens_in : Option ℤ
  pub tokens_out : Option ℤ
  pub cost_micros : Option ℤ
  pub currency : Option Text
  pub provider : Option Text
  pub model_id : Option Text
  pub payload : Text

-- `AuditEntryCanonical` has the row's columns, with the payload as a text.
pub record AuditEntryCanonical : Type 0 where
  pub row : AuditEntry
  pub open row use *
  pub payload_text : Text

unfoldable pub from_row : AuditEntry → Text → AuditEntryCanonical
from_row row payload_text = record { row = row; payload_text = payload_text }

-- `payload_text or "{}"`
unfoldable pub entry_payload_text : AuditEntry → Text
entry_payload_text row = elim row.payload [ [] ↦ codes "{}" | c ∷ s ↦ c ∷ s ]

-- `_text` of an integer or of nothing.
unfoldable pub text_of : Option ℤ → Option Text
text_of none = none
text_of (some value) = some (str_int value)

-- The fields by name, in hash order.
unfoldable pub canonical_fields : AuditEntryCanonical → List (String × Option Text)
canonical_fields c =
    ("id", some c.row.id)
    ∷ ("timestamp", some (timestamp_utc c.row.timestamp))
    ∷ ("actor_id", c.row.actor_id)
    ∷ ("matter_id", c.row.matter_id)
    ∷ ("action", some c.row.action)
    ∷ ("module", c.row.module_name)
    ∷ ("resource_type", c.row.resource_type)
    ∷ ("resource_id", c.row.resource_id)
    ∷ ("model_used", c.row.model_used)
    ∷ ("prompt_hash", c.row.prompt_hash)
    ∷ ("response_hash", c.row.response_hash)
    ∷ ("token_count", text_of c.row.token_count)
    ∷ ("latency_ms", text_of c.row.latency_ms)
    ∷ ("tokens_in", text_of c.row.tokens_in)
    ∷ ("tokens_out", text_of c.row.tokens_out)
    ∷ ("cost_micros", text_of c.row.cost_micros)
    ∷ ("currency", c.row.currency)
    ∷ ("provider", c.row.provider)
    ∷ ("model_id", c.row.model_id)
    ∷ ("payload_text", some c.payload_text)
    ∷ []

abbrev pub values : List (String × Option Text) → List (Option Text)
values = map (λ e. e.1)

-- A prefix line and one line for each field.
unfoldable pub prefixed : Text → List (Option Text) → Text
prefixed prefix fields = join_lines (prefix ∷ map field fields)

unfoldable pub canonical : AuditEntryCanonical → Text
canonical c = prefixed entry_prefix (values (canonical_fields c))

unfoldable pub chain_link_canonical : ℕ → Text → Option Text → ℕ → Text → Option Text → Text → Text
chain_link_canonical version scope matter sequence entry_id previous entry_hash =
    prefixed link_prefix (
      some (str version)
      ∷ some scope
      ∷ matter
      ∷ some (str sequence)
      ∷ some entry_id
      ∷ previous
      ∷ some entry_hash
      ∷ [])

-- `_hash`: the hexadecimal SHA-256 of the text.
module _ (sha256 : Text → Text) where
  unfoldable pub entry_hash : AuditEntryCanonical → Text
  entry_hash c = sha256 (canonical c)

  unfoldable pub chain_link_hash : ℕ → Text → Option Text → ℕ → Text → Option Text → Text → Text
  chain_link_hash version scope matter sequence entry_id previous hash =
      sha256 (chain_link_canonical version scope matter sequence entry_id previous hash)
