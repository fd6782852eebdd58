-- ===== src/PostureGate.antt =====
-- The posture gate (backend/app/core/posture_gate.py): a matter's privilege posture against the role
-- of the actor, before any capability runs.
mod Tests
use legalise.Base.{
  ℕ, ◌≡◌, refl, ◌≢◌, ◌↔◌, ◌⊎◌, inl, inr, Bool, true, false, List, [], ◌∷◌, Option, none, some,
  arith, if◌then◌else◌, is_none, Bool-cases,
}
use legalise.AdviceBoundary.Tiers.{Role, role_satisfies}

-- `matters.privilege_posture`; any text outside the vocabulary is `other`.
pub data Posture : Type 0 where
  cleared mixed paused : Posture
  other : ℕ → Posture

-- What the result names as required: a role, or one of the two sentinels.
pub data Requirement : Type 0 where
  role : Role → Requirement
  matter_paused unknown_posture : Requirement

pub data Reason : Type 0 where
  posture_paused unknown_posture posture_gate_failed : Reason

pub record PostureGateResult : Type 0 where
  pub allowed : Bool
  pub posture : Posture
  pub required_role : Requirement
  pub actor_role : Option Role
  pub reason : Option Reason

-- `POSTURE_POLICY.get(posture)`
unfoldable pub posture_policy : Posture → Option Role
posture_policy Posture.cleared = some Role.any_authenticated
posture_policy Posture.mixed = some Role.qualified_solicitor
posture_policy _ = none

is_paused : Posture → Bool
is_paused Posture.paused = true
is_paused _ = false

unfoldable pub evaluate_posture : Posture → Option Role → Bool → PostureGateResult
unfolding posture_policy is_paused role_satisfies
evaluate_posture posture actor_role firm_role_gates_enabled =
    if is_paused posture
    then record {
      allowed = false;
      posture = posture;
      required_role = Requirement.matter_paused;
      actor_role = actor_role;
      reason = some Reason.posture_paused;
    }
    else elim (posture_policy posture) [
      | none ↦ record {
        allowed = false;
        posture = posture;
        required_role = Requirement.unknown_posture;
        actor_role = actor_role;
        reason = some Reason.unknown_posture;
      }
      | some policy ↦
          let requirement = if firm_role_gates_enabled then policy else Role.any_authenticated in
          if role_satisfies actor_role (requirement ∷ [])
          then record {
            allowed = true;
            posture = posture;
            required_role = Requirement.role requirement;
            actor_role = actor_role;
            reason = none;
          }
          else record {
            allowed = false;
            posture = posture;
            required_role = Requirement.role requirement;
            actor_role = actor_role;
            reason = some Reason.posture_gate_failed;
          }
    ]

-- The `gate_state` of `_build_gate_state`; `enforced` stands for both of its last two keys.
pub record GateState : Type 0 where
  pub posture : Posture
  pub required_role : Requirement
  pub actor_role : Option Role
  pub reason : Option Reason
  pub enforced : Bool

unfoldable pub build_gate_state : PostureGateResult → Bool → GateState
build_gate_state result firm_role_gates_enabled = record {
  posture = result.posture;
  required_role = result.required_role;
  actor_role = result.actor_role;
  reason = result.reason;
  enforced = firm_role_gates_enabled;
}

-- The row `posture_gate.check.blocked`, committed on its own.
pub record BlockedRow : Type 0 where
  pub actor_id : ℕ
  pub matter_id : ℕ
  pub module_id : ℕ
  pub capability_id : ℕ
  pub gate_state : GateState

pub record Matter : Type 0 where
  pub id : ℕ
  pub privilege_posture : Posture

-- `check_posture`; the state is the committed audit rows, newest first.
unfoldable pub check_posture :
    Bool → Matter → ℕ → Option Role → ℕ → ℕ → List BlockedRow → PostureGateResult × List BlockedRow
unfolding evaluate_posture build_gate_state
check_posture gates matter actor_user_id actor_role module_id capability_id audits =
    let result = evaluate_posture matter.privilege_posture actor_role gates in
    if result.allowed then (result, audits) else (
      result,
      record {
        actor_id = actor_user_id;
        matter_id = matter.id;
        module_id = module_id;
        capability_id = capability_id;
        gate_state = build_gate_state result gates;
      }
          ∷ audits,
    )

-- Who passes: nobody on a paused matter or under an unknown posture, a qualified solicitor on mixed
-- matters, and any signed-in actor on cleared ones or while the role gates are dormant.
abbrev pub Passes : Bool → Posture → Option Role → Type 0
Passes gates Posture.cleared actor = ¬ (actor ≡ none)
Passes true Posture.mixed actor = actor ≡ some Role.qualified_solicitor
Passes false Posture.mixed actor = ¬ (actor ≡ none)
Passes gates Posture.paused actor = ⊥
Passes gates (Posture.other n) actor = ⊥

-- The evaluation on its own.
evaluate-Passes :
    (gates : Bool) (posture : Posture) (actor : Option Role)
    → ((evaluate_posture posture actor gates).allowed ≡ true) ↔ Passes gates posture actor
unfolding evaluate_posture
evaluate-Passes true Posture.cleared none = ground arith
evaluate-Passes false Posture.cleared none = ground arith
evaluate-Passes true Posture.cleared (some r) = ((λ _ h. cc), (λ _. refl))
evaluate-Passes false Posture.cleared (some r) = ((λ _ h. cc), (λ _. refl))
evaluate-Passes false Posture.mixed none = ground arith
evaluate-Passes false Posture.mixed (some r) = ((λ _ h. cc), (λ _. refl))
evaluate-Passes true Posture.mixed none = ((λ h. cc), (λ h. cc))
evaluate-Passes true Posture.mixed (some Role.any_authenticated) = ((λ h. cc), (λ h. cc))
evaluate-Passes true Posture.mixed (some Role.qualified_solicitor) = ((λ _. refl), (λ _. refl))
evaluate-Passes true Posture.mixed (some Role.workspace_admin) = ((λ h. cc), (λ h. cc))
evaluate-Passes true Posture.mixed (some (Role.other n)) = ((λ h. cc), (λ h. cc))
evaluate-Passes gates Posture.paused actor = ((λ h. cc), (λ h. elim h [ ]))
evaluate-Passes gates (Posture.other n) actor = ((λ h. cc), (λ h. elim h [ ]))

evaluate-actor :
    (gates : Bool) (posture : Posture) (actor : Option Role)
    → (evaluate_posture posture actor gates).actor_role ≡ actor
unfolding evaluate_posture
evaluate-actor gates posture actor = ground arith

-- A result that is not allowed names its reason.
evaluate-reason :
    (gates : Bool) (posture : Posture) (actor : Option Role)
    → (evaluate_posture posture actor gates).allowed ≡ false
    → (evaluate_posture posture actor gates).reason ≢ none
unfolding evaluate_posture
evaluate-reason gates posture actor h = ground arith

module _ (gates : Bool) (matter : Matter) (user : ℕ) (actor : Option Role) (mod_id cap_id : ℕ)
    (audits : List BlockedRow) where
  -- One blocked row on top: of this actor and matter, with a reason, and true about the setting.
  abbrev pub Blocked : List BlockedRow → Type 0
  Blocked written =
      (row : BlockedRow) × (written ≡ row ∷ audits)
      × (row.actor_id ≡ user)
      × (row.matter_id ≡ matter.id)
      × (row.gate_state.actor_role ≡ actor)
      × (row.gate_state.reason ≢ none)
      × (row.gate_state.enforced ≡ gates)

  -- The gate passes exactly the actors that the policy lets through. It then writes nothing. Every
  -- other call commits one row, which says why it was blocked and whether the role gates were on.
  pub check_posture-Passes :
      let (result, written) = check_posture gates matter user actor mod_id cap_id audits in
      ((result.allowed ≡ true) ↔ Passes gates matter.privilege_posture actor)
      × (result.allowed ≡ true → written ≡ audits)
      × (result.allowed ≡ false → Blocked written)
  unfolding check_posture
  check_posture-Passes =
      let decided = evaluate-Passes gates matter.privilege_posture actor in
      elim (Bool-cases (evaluate_posture matter.privilege_posture actor gates).allowed) [
        | inl passed ↦
            rw passed (((λ _. decided.0 passed), (λ _. passed)), (λ _. refl), (λ h. cc (passed, h)))
        | inr stopped ↦ rw stopped (
          ((λ h. cc (stopped, h)), (λ p. cc (decided.1 p))),
          (λ h. cc (stopped, h)),
          (λ _. (
            _,
            refl,
            refl,
            refl,
            evaluate-actor gates matter.privilege_posture actor,
            evaluate-reason gates matter.privilege_posture actor stopped,
            refl,
          )),
        )
      ]
