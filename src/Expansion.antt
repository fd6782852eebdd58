-- ===== src/Expansion.antt =====
-- The comparison of two permission snapshots that decides whether an update of a module needs a new
-- ceremony (backend/app/core/grants_lifecycle.py). A set of texts is the list of its elements, which
-- may repeat; of a sorted difference only the elements matter.
pub mod Declared
pub mod Ranked
pub mod Accesses
pub mod Covered
mod Tests
use Prim.Native.String.{String}
use legalise.Base.{
  ℕ, Bool, true, false, not, ◌&&◌, ◌||◌, List, [], ◌∷◌, ◌++◌, Option, none, some, ltb,
  if◌then◌else◌, is_none,
}
use legalise.AdviceBoundary.Tiers.{Tier, tier_rank}
use legalise.TrustCeremony.Card.{member}

-- `model_access`; a text outside the vocabulary is `other`.
pub data ModelAccess : Type 0 where
  none_access optional delegated required : ModelAccess
  other : ℕ → ModelAccess

-- `_MODEL_ACCESS_ORDER.get(v, 0)`
unfoldable pub model_access_order : ModelAccess → ℕ
model_access_order none_access = 0
model_access_order optional = 1
model_access_order delegated = 2
model_access_order required = 3
model_access_order (ModelAccess.other n) = 0

pub record CapabilitySnapshot : Type 0 where
  pub reads : List String
  pub writes : List String
  pub advice_tier_max : Option Tier
  pub model_access : ModelAccess
  pub external_network : Bool
  pub external_destinations : List String
  pub gates : List String

-- A snapshot of either shape; what a raw manifest lacks at the top is empty.
pub record Snapshot : Type 0 where
  pub capabilities : List CapabilitySnapshot
  pub advice_tier_max : Option Tier
  pub external_destinations : List String
  pub gates : List String

pub record ExpansionReport : Type 0 where
  pub reads_added : List String
  pub writes_added : List String
  pub tier_raised : Option (Tier × Tier)
  pub external_network_added : Bool
  pub new_destinations : List String
  pub new_gates_added : List String
  pub new_gates_removed : List String
  pub model_access_raised : Option (ModelAccess × ModelAccess)

unfoldable pub flatten : (CapabilitySnapshot → List String) → List CapabilitySnapshot → List String
flatten field [] = []
flatten field (c ∷ cs) = field c ++ flatten field cs

abbrev pub all_destinations : Snapshot → List String
all_destinations s =
    s.external_destinations ++ flatten CapabilitySnapshot.external_destinations s.capabilities

abbrev pub all_gates : Snapshot → List String
all_gates s = s.gates ++ flatten CapabilitySnapshot.gates s.capabilities

unfoldable pub any_external_network : List CapabilitySnapshot → Bool
any_external_network [] = false
any_external_network (c ∷ cs) = c.external_network || any_external_network cs

-- `max` keeps the first of equals.
unfoldable pub max_access : ModelAccess → List CapabilitySnapshot → ModelAccess
max_access best [] = best
max_access best (c ∷ cs) =
    max_access
      (if ltb (model_access_order best) (model_access_order c.model_access)
        then c.model_access
        else best)
      cs

unfoldable pub max_model_access : Snapshot → ModelAccess
unfolding max_access
max_model_access s = elim s.capabilities [
  | [] ↦ none_access
  | c ∷ cs ↦ max_access c.model_access cs
]

-- The candidates of `_highest_tier`.
abbrev pub candidates_of : List CapabilitySnapshot → List Tier
candidates_of [] = []
candidates_of (c ∷ cs) =
    let rest = candidates_of cs in elim c.advice_tier_max [ none ↦ rest | some t ↦ t ∷ rest ]

abbrev pub candidates : Snapshot → List Tier
candidates s = elim s.advice_tier_max [
  | none ↦ candidates_of s.capabilities
  | some t ↦ t ∷ candidates_of s.capabilities
]

-- `max(candidates, key=tier_rank)`, where `none` is a `KeyError`.
unfoldable pub max_tier : Tier → ℕ → List Tier → Option Tier
max_tier best held [] = some best
max_tier best held (t ∷ ts) = elim (tier_rank t) [
  | none ↦ none
  | some here ↦ if ltb held here then max_tier t here ts else max_tier best held ts
]

unfoldable pub highest_tier : Snapshot → Option Tier
unfolding max_tier
highest_tier s = elim (candidates s) [
  | [] ↦ some Tier.factual_extraction
  | t ∷ ts ↦ elim (tier_rank t) [ none ↦ none | some here ↦ max_tier t here ts ]
]

-- The elements of a difference of sets.
unfoldable pub minus : List String → List String → List String
minus [] old = []
minus (a ∷ new) old = let rest = minus new old in if member a old then rest else a ∷ rest

abbrev pub is_empty_list : List String → Bool
is_empty_list [] = true
is_empty_list (a ∷ s) = false

-- The `tier_raised` of the report.
unfoldable pub compare_tiers : Tier → Tier → Option (Option (Tier × Tier))
compare_tiers old new = elim (tier_rank new) [
  | none ↦ none
  | some there ↦ elim (tier_rank old) [
    | none ↦ none
    | some here ↦ some (if ltb here there then some (old, new) else none)
  ]
]

-- `detect_expansion`, once the tiers are compared.
unfoldable pub report : Snapshot → Snapshot → Option (Tier × Tier) → ExpansionReport
unfolding flatten any_external_network max_model_access minus model_access_order
report old new tier_raised = record {
  reads_added =
      minus (flatten CapabilitySnapshot.reads new.capabilities)
        (flatten CapabilitySnapshot.reads old.capabilities);
  writes_added =
      minus (flatten CapabilitySnapshot.writes new.capabilities)
        (flatten CapabilitySnapshot.writes old.capabilities);
  tier_raised = tier_raised;
  external_network_added =
      any_external_network new.capabilities && not (any_external_network old.capabilities);
  new_destinations = minus (all_destinations new) (all_destinations old);
  new_gates_added = minus (all_gates new) (all_gates old);
  new_gates_removed = minus (all_gates old) (all_gates new);
  model_access_raised =
      if ltb (model_access_order (max_model_access old)) (model_access_order (max_model_access new))
      then some (max_model_access old, max_model_access new)
      else none;
}

unfoldable pub detect_expansion : Snapshot → Snapshot → Option ExpansionReport
unfolding highest_tier compare_tiers report
detect_expansion old new = elim (highest_tier old) [
  | none ↦ none
  | some old_tier ↦ elim (highest_tier new) [
    | none ↦ none
    | some new_tier ↦ elim (compare_tiers old_tier new_tier) [
      | none ↦ none
      | some tier_raised ↦ some (report old new tier_raised)
    ]
  ]
]

-- `any_expansion`, which `requires_reprompt` returns.
unfoldable pub requires_reprompt : ExpansionReport → Bool
requires_reprompt r =
    not (is_empty_list r.reads_added)
    || not (is_empty_list r.writes_added)
    || not (is_none r.tier_raised)
    || r.external_network_added
    || not (is_empty_list r.new_destinations)
    || not (is_empty_list r.new_gates_added)
    || not (is_none r.model_access_raised)
