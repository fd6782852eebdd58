-- ===== src/AdviceBoundary/Rules.antt =====
-- The gate against the rules of the advice boundary, stated on their own.
use legalise.Base.{
  ℕ, ◌≡◌, refl, ◌↔◌, inl, inr, Bool, true, not, ◌||◌, List, ◌∷◌, Option, none, some, arith, ltb,
  Bool-cases, Option-cases,
}
use legalise.AdviceBoundary.Tiers.{
  Tier, Role, assert_tier, tier_rank, is_terminal_tier, is_allowed_transition, role_requirements,
  initial_tier_is_permitted, initial_tier_role_requirements, role_satisfies,
}
use legalise.AdviceBoundary.Gate.{
  BlockedReason, Detail, BlockedPayload, GateState, Status, completed, blocked, denied, failed,
  Request, Decision, AuditRow, Session, Response, record_decision, stop, allow, opt_assert_tier,
  tiers_valid, check_declared_max, check_role, check_transition, check,
}

-- How sensitive a canonical tier is.
abbrev pub rank : Tier → ℕ
rank Tier.factual_extraction = 1
rank Tier.legal_information = 2
rank Tier.draft_advice = 3
rank Tier.supervised_legal_advice = 4
rank Tier.approved_final_advice = 5
rank (Tier.other n) = 0

-- What a call leaves behind: one decision and one audit row, for this request and in agreement with
-- the answer.
abbrev pub Recorded : ℕ → Request → Session → Option (Response × Session) → Type 0
Recorded id r s outcome =
    (answer : Response) × (row : Decision) × (audit : AuditRow) × (outcome
      ≡ some (answer, record { decisions = row ∷ s.decisions; audits = audit ∷ s.audits }))
    × (row.id ≡ id)
    × (row.request ≡ r)
    × (answer.gate_state ≡ row.gate_state)
    × ((answer.allowed ≡ true) ↔ (row.status ≡ completed))
    × (audit.action ≡ row.status)
    × (audit.resource_id ≡ id)

record_decision-Recorded :
    (id : ℕ) (r : Request) (gate_state : GateState) (status : Status)
    (payload : Option BlockedPayload) (s : Session)
    → Recorded id r s (some (record_decision id r gate_state status payload s))
unfolding record_decision
record_decision-Recorded id r g completed p s =
    (_, _, _, refl, refl, refl, refl, ((λ _. refl), (λ _. refl)), refl, refl)
record_decision-Recorded id r g blocked p s =
    (_, _, _, refl, refl, refl, refl, ((λ h. cc), (λ h. cc)), refl, refl)
record_decision-Recorded id r g denied p s =
    (_, _, _, refl, refl, refl, refl, ((λ h. cc), (λ h. cc)), refl, refl)
record_decision-Recorded id r g failed p s =
    (_, _, _, refl, refl, refl, refl, ((λ h. cc), (λ h. cc)), refl, refl)

stop-Recorded :
    (id : ℕ) (r : Request) (reason : BlockedReason) (detail : Detail) (status : Status)
    (s : Session)
    → Recorded id r s (some (stop id r reason detail status s))
unfolding stop
stop-Recorded id r reason detail status s = record_decision-Recorded id r _ status _ s

allow-Recorded : (id : ℕ) (r : Request) (s : Session) → Recorded id r s (some (allow id r s))
unfolding allow
allow-Recorded id r s = record_decision-Recorded id r _ completed none s

-- A tier in the vocabulary has a rank in the table.
pub assert_tier-rank : (t : Tier) → assert_tier t ≡ true → tier_rank t ≡ some (rank t)
unfolding assert_tier tier_rank
assert_tier-rank Tier.factual_extraction h = refl
assert_tier-rank Tier.legal_information h = refl
assert_tier-rank Tier.draft_advice h = refl
assert_tier-rank Tier.supervised_legal_advice h = refl
assert_tier-rank Tier.approved_final_advice h = refl
assert_tier-rank (Tier.other n) h = cc

check_declared_max-Recorded :
    (max : Option Tier) (id : ℕ) (r : Request) (s : Session)
    → assert_tier r.requested_tier ≡ true
    → opt_assert_tier max ≡ true
    → Recorded id r s (check_declared_max max id r s)
unfolding check_declared_max opt_assert_tier
check_declared_max-Recorded none id r s h k = allow-Recorded id r s
check_declared_max-Recorded (some max) id r s h k =
    rw (assert_tier-rank r.requested_tier h, assert_tier-rank max k, check_declared_max)
      (elim (Bool-cases (ltb (rank max) (rank r.requested_tier))) [
        | inl above ↦ rw above (stop-Recorded id r _ _ denied s)
        | inr within ↦ rw within (allow-Recorded id r s)
      ])

-- Every allowed transition and every permitted initial tier has a role requirement.
pub role_requirements-total :
    (from to : Tier)
    → is_allowed_transition from to ≡ true
    → (required : List Role) × (role_requirements from to ≡ some required)
unfolding is_allowed_transition role_requirements
role_requirements-total Tier.factual_extraction Tier.legal_information h = (_, refl)
role_requirements-total Tier.factual_extraction Tier.draft_advice h = (_, refl)
role_requirements-total Tier.legal_information Tier.draft_advice h = (_, refl)
role_requirements-total Tier.draft_advice Tier.supervised_legal_advice h = (_, refl)
role_requirements-total Tier.supervised_legal_advice Tier.approved_final_advice h = (_, refl)
role_requirements-total _ _ h = cc

module _ (gates : Bool) (id : ℕ) (r : Request) (s : Session) where
  check_role-Recorded :
      (required : List Role)
      → assert_tier r.requested_tier ≡ true
      → opt_assert_tier r.declared_tier_max ≡ true
      → Recorded id r s (check_role gates id r required s)
  unfolding check_role
  check_role-Recorded required h k =
      elim (Bool-cases (not gates || role_satisfies r.actor_role required)) [
        | inl held ↦ rw held (check_declared_max-Recorded r.declared_tier_max id r s h k)
        | inr short ↦ rw short (stop-Recorded id r _ _ denied s)
      ]

  check_transition-Recorded :
      (from : Option Tier)
      → assert_tier r.requested_tier ≡ true
      → opt_assert_tier r.declared_tier_max ≡ true
      → Recorded id r s (check_transition from gates id r s)
  unfolding check_transition initial_tier_is_permitted
  check_transition-Recorded none h k =
      elim (Option-cases (initial_tier_role_requirements r.requested_tier)) [
        | inl absent ↦ rw (absent, check_transition) (stop-Recorded id r _ _ blocked s)
        | inr (required, found) ↦ rw (found, check_transition) (check_role-Recorded required h k)
      ]
  check_transition-Recorded (some from) h k = elim (Bool-cases (is_terminal_tier from)) [
    | inl terminal ↦ rw terminal (stop-Recorded id r _ _ blocked s)
    | inr going ↦ rw going (elim (Bool-cases (is_allowed_transition from r.requested_tier)) [
      | inr refused ↦ rw refused (stop-Recorded id r _ _ blocked s)
      | inl passed ↦
          let (required, found) = role_requirements-total from r.requested_tier passed in
          rw (passed, found, check_transition) (check_role-Recorded required h k)
    ])
  ]

  -- The gate never raises. Each call appends exactly one decision and one audit row, both about the
  -- request and under the new id, and it answers `allowed` exactly when the decision is `completed`.
  pub check-Recorded : Recorded id r s (check gates id r s)
  unfolding check tiers_valid
  check-Recorded = elim (Bool-cases (tiers_valid r)) [
    | inl valid ↦ rw valid (check_transition-Recorded r.from_tier (ground arith) (ground arith))
    | inr invalid ↦ rw invalid (record_decision-Recorded id r _ failed none s)
  ]
