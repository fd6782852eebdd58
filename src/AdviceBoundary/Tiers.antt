-- ===== src/AdviceBoundary/Tiers.antt =====
-- The tier vocabulary and the transition rules (backend/app/core/advice_boundary/tiers.py).
use legalise.Base.{
  ℕ, Bool, true, false, not, ◌||◌, List, [], ◌∷◌, Option, none, some, ◌==◌, is_none,
}

-- A tier string: one of the canonical five, or some other text, told apart by a number.
pub data Tier : Type 0 where
  factual_extraction legal_information draft_advice : Tier
  supervised_legal_advice approved_final_advice : Tier
  other : ℕ → Tier

-- A workspace role token: one that the rules name, or any other.
pub data Role : Type 0 where
  any_authenticated qualified_solicitor workspace_admin : Role
  other : ℕ → Role

-- Equality of role tokens, as `in` tests it.
abbrev pub role_eq : Role → Role → Bool
role_eq Role.any_authenticated Role.any_authenticated = true
role_eq Role.qualified_solicitor Role.qualified_solicitor = true
role_eq Role.workspace_admin Role.workspace_admin = true
role_eq (Role.other m) (Role.other n) = m == n
role_eq _ _ = false

abbrev pub role_in : Role → List Role → Bool
role_in r [] = false
role_in r (q ∷ qs) = role_eq r q || role_in r qs

-- `_TIER_RANK`; `none` where the table has no such key.
unfoldable pub tier_rank_table : Tier → Option ℕ
tier_rank_table Tier.factual_extraction = some 1
tier_rank_table Tier.legal_information = some 2
tier_rank_table Tier.draft_advice = some 3
tier_rank_table Tier.supervised_legal_advice = some 4
tier_rank_table Tier.approved_final_advice = some 5
tier_rank_table (Tier.other n) = none

-- `(from, to) in ALLOWED_TRANSITIONS`
unfoldable pub is_allowed_transition : Tier → Tier → Bool
is_allowed_transition Tier.factual_extraction Tier.legal_information = true
is_allowed_transition Tier.factual_extraction Tier.draft_advice = true
is_allowed_transition Tier.legal_information Tier.draft_advice = true
is_allowed_transition Tier.draft_advice Tier.supervised_legal_advice = true
is_allowed_transition Tier.supervised_legal_advice Tier.approved_final_advice = true
is_allowed_transition _ _ = false

-- `tier in TERMINAL_TIERS`
unfoldable pub is_terminal_tier : Tier → Bool
is_terminal_tier Tier.approved_final_advice = true
is_terminal_tier _ = false

-- `ROLE_REQUIREMENTS[(from, to)]`; `none` is a `KeyError`.
unfoldable pub role_requirements : Tier → Tier → Option (List Role)
role_requirements Tier.factual_extraction Tier.legal_information =
    some (Role.any_authenticated ∷ [])
role_requirements Tier.factual_extraction Tier.draft_advice = some (Role.any_authenticated ∷ [])
role_requirements Tier.legal_information Tier.draft_advice = some (Role.any_authenticated ∷ [])
role_requirements Tier.draft_advice Tier.supervised_legal_advice =
    some (Role.qualified_solicitor ∷ [])
role_requirements Tier.supervised_legal_advice Tier.approved_final_advice =
    some (Role.qualified_solicitor ∷ Role.workspace_admin ∷ [])
role_requirements _ _ = none

-- `INITIAL_TIER_ROLE_REQUIREMENTS[tier]`; `none` is a `KeyError`.
unfoldable pub initial_tier_role_requirements : Tier → Option (List Role)
initial_tier_role_requirements Tier.factual_extraction = some (Role.any_authenticated ∷ [])
initial_tier_role_requirements Tier.legal_information = some (Role.any_authenticated ∷ [])
initial_tier_role_requirements Tier.draft_advice = some (Role.any_authenticated ∷ [])
initial_tier_role_requirements _ = none

unfoldable pub initial_tier_is_permitted : Tier → Bool
unfolding initial_tier_role_requirements
initial_tier_is_permitted tier = not (is_none (initial_tier_role_requirements tier))

-- `assert_tier`: true where it returns, false where it raises `InvalidTierError`.
unfoldable pub assert_tier : Tier → Bool
unfolding tier_rank_table
assert_tier value = not (is_none (tier_rank_table value))

-- `tier_rank`; `none` is the `InvalidTierError` of its `assert_tier`.
unfoldable pub tier_rank : Tier → Option ℕ
unfolding tier_rank_table
tier_rank tier = tier_rank_table tier

unfoldable pub role_satisfies : Option Role → List Role → Bool
role_satisfies none requirement_set = false
role_satisfies (some actor_role) requirement_set =
    role_in Role.any_authenticated requirement_set || role_in actor_role requirement_set
