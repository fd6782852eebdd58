-- ===== src/AdviceBoundary/Tests.antt =====
-- Runs of the gate at concrete requests, and the theorems at inputs that meet their hypotheses.
use legalise.Base.{◌≡◌, refl, ◌↔◌, true, false, [], ◌∷◌, none, some}
use legalise.AdviceBoundary.Tiers.{Tier, Role}
use legalise.AdviceBoundary.Gate.{Request, Session, completed, check, success}
use legalise.AdviceBoundary.Rules.{Recorded, check-Recorded}
use legalise.AdviceBoundary.Decides.{answer, Authorised, Within, check-allowed_iff}
use legalise.AdviceBoundary.History.{empty_session}

abbrev draft_request : Request
draft_request = record {
  output_id = 7;
  requested_tier = Tier.draft_advice;
  from_tier = none;
  declared_tier_max = none;
  actor_user_id = some 1;
  actor_role = some Role.workspace_admin;
  module_id = none;
  capability_id = none;
  matter_id = some 4;
}

abbrev supervise_request : Request
supervise_request = record draft_request {
  requested_tier = Tier.supervised_legal_advice;
  from_tier = some Tier.draft_advice;
  declared_tier_max = some Tier.approved_final_advice;
  actor_role = some Role.qualified_solicitor;
}

-- An administrator cannot promote draft advice, and nobody leaves the final tier.
admin_denied :
    (answer (
        check true 1
          (record supervise_request { actor_role = some Role.workspace_admin })
          empty_session)
      ≡ false)
    × (answer (
          check false 1
            (record supervise_request { from_tier = some Tier.approved_final_advice })
            empty_session)
        ≡ false)
unfolding check
admin_denied = (refl, refl)

abbrev after_draft : Session
after_draft = record {
  decisions =
      record {
        id = 1;
        request = draft_request;
        gate_state = success false (some 4);
        status = completed;
      }
      ∷ [];
  audits =
      record { action = completed; resource_id = 1; subject = draft_request; payload = none } ∷ [];
}

abbrev after_supervision : Session
after_supervision = record {
  decisions =
      record {
        id = 2;
        request = supervise_request;
        gate_state = success true (some 4);
        status = completed;
      }
      ∷ after_draft.decisions;
  audits =
      record { action = completed; resource_id = 2; subject = supervise_request; payload = none }
      ∷ after_draft.audits;
}

check-Recorded_example :
    Recorded 2 supervise_request after_draft (check true 2 supervise_request after_draft)
check-Recorded_example = check-Recorded true 2 supervise_request after_draft

check-allowed_iff_example : (answer (check true 2 supervise_request after_draft) ≡ true) ↔ (
    Authorised true
      (some Tier.draft_advice)
      Tier.supervised_legal_advice
      (some Role.qualified_solicitor)
    × Within Tier.supervised_legal_advice (some Tier.approved_final_advice))
check-allowed_iff_example = check-allowed_iff true 2 supervise_request after_draft

-- The gate takes the tier that a caller states: without any supervision, one call approves.
stated_tier :
    answer (
      check true 1
        (record supervise_request {
          requested_tier = Tier.approved_final_advice;
          from_tier = some Tier.supervised_legal_advice;
        })
        empty_session)
    ≡ true
unfolding check
stated_tier = refl
