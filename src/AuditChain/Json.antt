-- ===== src/AuditChain/Json.antt =====
-- JSON objects as the offline verifier reads them (backend/app/core/export_chain_verifier.py).
-- Values are null, a text or a number that is not negative: those that the export writes.
use Prim.Native.String.{String}
use text.Mathlib.Text.{◌==◌}
use legalise.Base.{
  ℕ, Bool, true, false, List, [], ◌∷◌, Option, none, some, if◌then◌else◌, ◌==◌ as nat_eq,
}
use legalise.Base.Text.{Text, codes, str, text_eq}

pub data Json : Type 0 where
  null : Json
  string : Text → Json
  number : ℕ → Json

-- Python's `==` on two of these values.
abbrev pub json_eq : Json → Json → Bool
json_eq null null = true
json_eq (string s) (string t) = text_eq s t
json_eq (number m) (number n) = nat_eq m n
json_eq _ _ = false

-- `str(value)`
unfoldable pub str_json : Json → Text
str_json null = codes "None"
str_json (string s) = s
str_json (number n) = str n

-- `None if value is None else str(value)`
unfoldable pub opt_str : Json → Option Text
opt_str null = none
opt_str (string s) = some s
opt_str (number n) = some (str n)

abbrev pub Dict : Type 0
Dict = List (String × Json)

-- `d[k]`, where `none` is a `KeyError`.
unfoldable pub item : String → Dict → Option Json
item k [] = none
item k ((j, v) ∷ d) = if j == k then some v else item k d

-- `d.get(k)`
unfoldable pub get : String → Dict → Json
get k [] = null
get k ((j, v) ∷ d) = if j == k then v else get k d
