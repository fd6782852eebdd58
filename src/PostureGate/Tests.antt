-- ===== src/PostureGate/Tests.antt =====
-- The posture gate at concrete matters.
use legalise.Base.{◌≡◌, refl, ◌↔◌, true, false, [], some}
use legalise.AdviceBoundary.Tiers.{Role}
use legalise.PostureGate.{
  Posture, Requirement, Matter, evaluate_posture, check_posture, Passes, Blocked,
  check_posture-Passes,
}

abbrev mixed_matter : Matter
mixed_matter = record { id = 3; privilege_posture = Posture.mixed }

dormant_requirement :
    ((evaluate_posture Posture.mixed (some (Role.other 1)) false).required_role
      ≡ Requirement.role Role.any_authenticated)
    × ((evaluate_posture Posture.paused (some Role.qualified_solicitor) false).required_role
        ≡ Requirement.matter_paused)
unfolding evaluate_posture
dormant_requirement = (refl, refl)

check_posture-Passes_example :
    let (result, written) = check_posture true mixed_matter 1 (some Role.workspace_admin) 8 9 [] in
    ((result.allowed ≡ true) ↔ Passes true Posture.mixed (some Role.workspace_admin))
    × (result.allowed ≡ true → written ≡ [])
    × (result.allowed ≡ false
        → Blocked true mixed_matter 1 (some Role.workspace_admin) 8 9 [] written)
check_posture-Passes_example =
    check_posture-Passes true mixed_matter 1 (some Role.workspace_admin) 8 9 []
