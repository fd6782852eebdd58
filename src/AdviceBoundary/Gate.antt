-- ===== src/AdviceBoundary/Gate.antt =====
-- The gate `check` (backend/app/core/advice_boundary/gate.py), with the rows that it writes.
-- The caller's session is the state: the decision rows and the audit rows, newest first.
use legalise.Base.{
  ℕ, Bool, true, false, not, ◌&&◌, ◌||◌, List, ◌∷◌, Option, none, some, ltb, is_none, if◌then◌else◌,
}
use legalise.AdviceBoundary.Tiers.{
  Tier, Role, is_allowed_transition, is_terminal_tier, role_requirements,
  initial_tier_role_requirements, initial_tier_is_permitted, assert_tier, tier_rank, role_satisfies,
}

pub data BlockedReason : Type 0 where
  capability_denied gate_blocked invalid_transition schema_violation : BlockedReason
  role_denied missing_input tier_exceeded tier_disallowed : BlockedReason

-- The dictionaries that the gate puts into a payload's `gate_state`.
pub data Detail : Type 0 where
  from_tier_is_terminal : Tier → Tier → Detail
  transition_not_allowed : Tier → Tier → Detail
  tier_not_permitted_as_initial : Tier → Detail
  role_missing : Option Role → List Role → Option Tier → Tier → Detail
  requested_tier_exceeds_declared_max : Tier → Tier → Detail

pub record BlockedPayload : Type 0 where
  pub blocked_reason : BlockedReason
  pub denied_capability : Option ℕ
  pub gate_state : Option Detail

-- The `gate_state` column of a decision.
pub data GateState : Type 0 where
  invalid_tier : GateState
  flattened : BlockedReason → Option ℕ → Option Detail → GateState
  -- `allowed`, `declared_tier_max_supplied`, and the matter if one was given
  success : Bool → Option ℕ → GateState

-- `_blocked_to_decision_gate_state`
unfoldable pub blocked_to_decision_gate_state : BlockedPayload → GateState
blocked_to_decision_gate_state b = flattened b.blocked_reason b.denied_capability b.gate_state

pub data Status : Type 0 where
  completed blocked denied failed : Status

pub record Request : Type 0 where
  pub output_id : ℕ
  pub requested_tier : Tier
  pub from_tier : Option Tier
  pub declared_tier_max : Option Tier
  pub actor_user_id : Option ℕ
  pub actor_role : Option Role
  pub module_id : Option ℕ
  pub capability_id : Option ℕ
  pub matter_id : Option ℕ

-- `AdviceBoundaryDecision`: the request's columns, the gate's state and the status.
pub record Decision : Type 0 where
  pub id : ℕ
  pub request : Request
  pub open request use *
  pub gate_state : GateState
  pub status : Status

-- The audit row of `_emit`; its action ends in the status.
pub record AuditRow : Type 0 where
  pub action : Status
  pub resource_id : ℕ
  pub subject : Request
  pub payload : Option BlockedPayload

pub record Session : Type 0 where
  pub decisions : List Decision
  pub audits : List AuditRow

pub record Response : Type 0 where
  pub allowed : Bool
  pub decision_id : ℕ
  pub gate_state : GateState

unfoldable pub append_decision : ℕ → Request → GateState → Status → Session → Decision × Session
append_decision id request gate_state status s =
    let row : Decision = record {
      id = id;
      request = request;
      gate_state = gate_state;
      status = status;
    } in
    (row, record s { decisions = row ∷ s.decisions })

unfoldable pub emit : Status → Decision → Option BlockedPayload → Session → Session
emit action decision payload s = record s {
  audits =
      record {
        action = action;
        resource_id = decision.id;
        subject = decision.request;
        payload = payload;
      }
      ∷ s.audits;
}

-- The end of every branch: append the decision, emit the audit row, return.
unfoldable pub record_decision :
    ℕ → Request → GateState → Status → Option BlockedPayload → Session → Response × Session
unfolding append_decision emit
record_decision id request gate_state status payload s =
    let (decision, s') = append_decision id request gate_state status s in
    (
      record {
        allowed = elim status [
          | completed ↦ true
          | blocked ↦ false
          | denied ↦ false
          | failed ↦ false
        ];
        decision_id = decision.id;
        gate_state = decision.gate_state;
      },
      emit status decision payload s',
    )

-- A branch that builds a `BlockedPayload`.
unfoldable pub stop : ℕ → Request → BlockedReason → Detail → Status → Session → Response × Session
unfolding record_decision blocked_to_decision_gate_state
stop id r reason detail status s =
    let payload : BlockedPayload = record {
      blocked_reason = reason;
      denied_capability = none;
      gate_state = some detail;
    } in
    record_decision id r (blocked_to_decision_gate_state payload) status (some payload) s

unfoldable pub opt_assert_tier : Option Tier → Bool
opt_assert_tier none = true
opt_assert_tier (some tier) = assert_tier tier

-- The vocabulary check at the start: true where no `InvalidTierError` is raised.
unfoldable pub tiers_valid : Request → Bool
unfolding assert_tier opt_assert_tier
tiers_valid r =
    assert_tier r.requested_tier
    && (opt_assert_tier r.from_tier && opt_assert_tier r.declared_tier_max)

-- The success row, with the matter if the caller gave one.
unfoldable pub allow : ℕ → Request → Session → Response × Session
unfolding record_decision
allow id r s =
    record_decision id r (success (not (is_none r.declared_tier_max)) r.matter_id) completed none s

-- The ceiling check, and the end of the gate. `none` is an exception out of `tier_rank`.
unfoldable pub check_declared_max :
    Option Tier → ℕ → Request → Session → Option (Response × Session)
unfolding allow stop tier_rank
check_declared_max none id r s = some (allow id r s)
check_declared_max (some max) id r s = elim (tier_rank r.requested_tier) [
  | none ↦ none
  | some requested ↦ elim (tier_rank max) [
    | none ↦ none
    | some ceiling ↦ some (
        if ltb ceiling requested
        then stop id r tier_exceeded (requested_tier_exceeds_declared_max r.requested_tier max)
            denied s
        else allow id r s)
  ]
]

-- The role check; `firm_role_gates_enabled` is the setting.
unfoldable pub check_role : Bool → ℕ → Request → List Role → Session → Option (Response × Session)
unfolding check_declared_max stop role_satisfies
check_role firm_role_gates_enabled id r role_requirement s =
    if not firm_role_gates_enabled || role_satisfies r.actor_role role_requirement
    then check_declared_max r.declared_tier_max id r s
    else some (
        stop id r role_denied
          (role_missing r.actor_role role_requirement r.from_tier r.requested_tier) denied s)

-- The transition rules, for a new output and for a transition. `none` is a `KeyError`.
unfoldable pub check_transition :
    Option Tier → Bool → ℕ → Request → Session → Option (Response × Session)
unfolding check_role stop is_terminal_tier is_allowed_transition role_requirements
    initial_tier_is_permitted initial_tier_role_requirements
check_transition none gates id r s =
    if not (initial_tier_is_permitted r.requested_tier)
    then some
        (stop id r invalid_transition (tier_not_permitted_as_initial r.requested_tier) blocked s)
    else elim (initial_tier_role_requirements r.requested_tier) [
      | none ↦ none
      | some role_requirement ↦ check_role gates id r role_requirement s
    ]
check_transition (some from_tier) gates id r s =
    if is_terminal_tier from_tier
    then some
        (stop id r tier_disallowed (from_tier_is_terminal from_tier r.requested_tier) blocked s)
    else if not (is_allowed_transition from_tier r.requested_tier)
    then some
        (stop id r invalid_transition (transition_not_allowed from_tier r.requested_tier) blocked s)
    else elim (role_requirements from_tier r.requested_tier) [
      | none ↦ none
      | some role_requirement ↦ check_role gates id r role_requirement s
    ]

-- `check`, where `id` is the new row's uuid.
unfoldable pub check : Bool → ℕ → Request → Session → Option (Response × Session)
unfolding check_transition tiers_valid record_decision
check gates id r s =
    if tiers_valid r
    then check_transition r.from_tier gates id r s
    else some (record_decision id r invalid_tier failed none s)
