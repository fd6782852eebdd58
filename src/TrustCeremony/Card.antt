-- ===== src/TrustCeremony/Card.antt =====
-- The manifest, and the permission card rendered from it (backend/app/core/trust_ceremony.py).
-- A set that the source sorts is a list without repeats here: its order is not modelled.
use Prim.Native.String.{String}
use text.Mathlib.Text.{◌==◌}
use legalise.Base.{Bool, true, false, ◌||◌, List, [], ◌∷◌, Option, none, some, ltb, if◌then◌else◌}
use legalise.AdviceBoundary.Tiers.{Tier, tier_rank_table}

pub record DataMovement : Type 0 where
  pub sends_document_body : Bool
  pub sends_document_binary : Bool
  pub sends_matter_metadata : Bool
  pub external_destinations : List String
  pub local_only : Option Bool

-- A declared capability. A missing `data_movement` block is one with every key missing.
pub record Capability : Type 0 where
  pub id : String
  pub reads : List String
  pub writes : List String
  pub external_network : Bool
  pub gates : List String
  pub audit_events : List String
  pub advice_tier_max : Option Tier
  pub data_movement : DataMovement

pub record Manifest : Type 0 where
  pub id : String
  pub name : String
  pub publisher : Option String
  pub signed_by : Option String
  pub signature : Option String
  pub visibility : String
  pub version : String
  pub capabilities : List Capability

abbrev pub member : String → List String → Bool
member a [] = false
member a (b ∷ bs) = a == b || member a bs

-- `set.add`
abbrev pub add : String → List String → List String
add a s = if member a s then s else a ∷ s

abbrev pub add_all : List String → List String → List String
add_all [] s = s
add_all (a ∷ rest) s = add_all rest (add a s)

-- The loop of `_aggregate_data_movement`.
unfoldable pub aggregate_step : List Capability → DataMovement → DataMovement
aggregate_step [] acc = acc
aggregate_step (cap ∷ caps) acc =
    let dm = cap.data_movement in
    aggregate_step caps (record {
      sends_document_body = acc.sends_document_body || dm.sends_document_body;
      sends_document_binary = acc.sends_document_binary || dm.sends_document_binary;
      sends_matter_metadata = acc.sends_matter_metadata || dm.sends_matter_metadata;
      external_destinations = add_all dm.external_destinations acc.external_destinations;
      local_only = elim dm.local_only [
        | none ↦ acc.local_only
        | some here ↦ if here then acc.local_only else some false
      ];
    })

abbrev pub no_movement : DataMovement
no_movement = record {
  sends_document_body = false;
  sends_document_binary = false;
  sends_matter_metadata = false;
  external_destinations = [];
  local_only = some true;
}

abbrev pub is_empty : List String → Bool
is_empty [] = true
is_empty (a ∷ s) = false

unfoldable pub aggregate_data_movement : List Capability → DataMovement
unfolding aggregate_step
aggregate_data_movement caps =
    let sum = aggregate_step caps no_movement in
    if is_empty sum.external_destinations then sum else record sum { local_only = some false }

-- `_aggregate_gates`, and `_aggregate_audit_events` on the other field.
unfoldable pub aggregate_union :
    (Capability → List String) → List Capability → List String → List String
aggregate_union field [] acc = acc
aggregate_union field (cap ∷ caps) acc = aggregate_union field caps (add_all (field cap) acc)

-- The loop of `_highest_tier`, where `none` is the `ValueError` of `order.index`. The ranks of the
-- vocabulary are the positions in `order`.
unfoldable pub highest_from : List Capability → Tier → Option Tier
highest_from [] highest = some highest
highest_from (cap ∷ caps) highest = elim cap.advice_tier_max [
  | none ↦ highest_from caps highest
  | some tier ↦ elim (tier_rank_table tier) [
    | none ↦ none
    | some here ↦ elim (tier_rank_table highest) [
      | none ↦ none
      | some there ↦ highest_from caps (if ltb there here then tier else highest)
    ]
  ]
]

unfoldable pub highest_tier : List Capability → Option Tier
unfolding highest_from
highest_tier caps = highest_from caps Tier.factual_extraction
