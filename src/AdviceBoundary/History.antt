-- ===== src/AdviceBoundary/History.antt =====
-- Runs of the gate, and one output whose callers pass on the tier that it has.
use legalise.Base.{ℕ, ◌≡◌, ◌⊎◌, true, List, [], ◌∷◌, Option, none, some, ◌==◌, if◌then◌else◌}
use legalise.AdviceBoundary.Tiers.{Tier, Role}
use legalise.AdviceBoundary.Gate.{
  Request, Decision, Session, Response, completed, blocked, denied, failed, check,
}

-- The tier of an output: that of its last completed decision.
abbrev pub current : ℕ → List Decision → Option Tier
current output [] = none
current output (d ∷ ds) =
    if d.request.output_id == output
    then (elim d.status [
      | completed ↦ some d.request.requested_tier
      | blocked ↦ current output ds
      | denied ↦ current output ds
      | failed ↦ current output ds
    ])
    else current output ds

abbrev pub Any {ℓ} : {A : Type ℓ} → (A → Type 0) → List A → Type 0
Any P [] = ⊥
Any P (x ∷ xs) = P x ⊎ Any P xs

-- A completed promotion of the output's draft advice by a qualified solicitor.
pub record IsSupervision (output : ℕ) (d : Decision) : Type 0 where
  pub about_it : d.request.output_id ≡ output
  pub was_draft : d.request.from_tier ≡ some Tier.draft_advice
  pub promoted : d.request.requested_tier ≡ Tier.supervised_legal_advice
  pub by_solicitor : d.request.actor_role ≡ some Role.qualified_solicitor
  pub went_through : d.status ≡ completed

abbrev pub empty_session : Session
empty_session = record { decisions = []; audits = [] }

-- Sessions that calls of the gate lead to, with the firm's role gates on: any calls about other
-- outputs, and calls about this one that pass on the tier which it has.
pub data Run (output : ℕ) : Session → Type 0 where
  start : Run output empty_session
  call :
      {s s' : Session}
      → Run output s
      → (id : ℕ) (r : Request) (response : Response)
      → (r.output_id ≡ output → r.from_tier ≡ current output s.decisions)
      → check true id r s ≡ some (response, s')
      → Run output s'

module _ (output : ℕ) where
  -- Which tiers need a supervision behind them.
  abbrev Needs : Option Tier → List Decision → Type 0
  Needs (some Tier.supervised_legal_advice) ds = Any (IsSupervision output) ds
  Needs (some Tier.approved_final_advice) ds = Any (IsSupervision output) ds
  Needs _ ds = Unit
