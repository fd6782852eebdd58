-- ===== src/AdviceBoundary/Decides.antt =====
-- The gate allows exactly what the rules of the advice boundary allow.
use legalise.Base.{
  ℕ, ◌≤◌, ◌<◌, ◌≡◌, refl, sym, ◌∙◌, ◌↔◌, inl, inr, Bool, true, false, not, ◌||◌, List, Option, none,
  some, arith, Bool-cases, Option-cases,
}
use legalise.AdviceBoundary.Tiers.{
  Tier, Role, assert_tier, is_terminal_tier, is_allowed_transition, role_requirements,
  initial_tier_is_permitted, initial_tier_role_requirements, role_satisfies,
}
use legalise.AdviceBoundary.Gate.{
  Request, Session, Response, record_decision, stop, allow, opt_assert_tier, tiers_valid,
  check_declared_max, check_role, check_transition, check,
}
use legalise.AdviceBoundary.Rules.{rank, assert_tier-rank, role_requirements-total}

-- A step of an output's tier, and who may take it while the firm's role gates are on.
pub data Step : Option Tier → Tier → Option Role → Type 0 where
  create_extraction : (role : Role) → Step none Tier.factual_extraction (some role)
  create_information : (role : Role) → Step none Tier.legal_information (some role)
  create_draft : (role : Role) → Step none Tier.draft_advice (some role)
  inform : (role : Role) → Step (some Tier.factual_extraction) Tier.legal_information (some role)
  draft : (role : Role) → Step (some Tier.factual_extraction) Tier.draft_advice (some role)
  apply : (role : Role) → Step (some Tier.legal_information) Tier.draft_advice (some role)
  supervise :
      Step (some Tier.draft_advice) Tier.supervised_legal_advice (some Role.qualified_solicitor)
  approve :
      Step
        (some Tier.supervised_legal_advice)
        Tier.approved_final_advice
        (some Role.qualified_solicitor)
  approve_as_admin :
      Step
        (some Tier.supervised_legal_advice)
        Tier.approved_final_advice
        (some Role.workspace_admin)

-- The answer of a call that returned.
abbrev pub answer : Option (Response × Session) → Bool
answer none = false
answer (some (response, _)) = response.allowed

-- The ceiling, where one is declared: a canonical tier that is not below the requested one.
abbrev pub Within : Tier → Option Tier → Type 0
Within requested none = Unit
Within requested (some max) = (1 ≤ rank max) × (rank requested ≤ rank max)

-- With the firm's role gates on, the step must be open to the actor. With them off, to anybody.
abbrev pub Authorised : Bool → Option Tier → Tier → Option Role → Type 0
Authorised true from to role = Step from to role
Authorised false from to role = (anybody : Option Role) × Step from to anybody

-- Whether the role requirement of a step exists and is met.
met : Option Tier → Tier → Option Role → Bool
met none to role = elim (initial_tier_role_requirements to) [
  | none ↦ false
  | some required ↦ role_satisfies role required
]
met (some from) to role = elim (role_requirements from to) [
  | none ↦ false
  | some required ↦ role_satisfies role required
]

met-Step :
    (from : Option Tier) (to : Tier) (role : Option Role)
    → met from to role ≡ true
    → Step from to role
unfolding met role_requirements initial_tier_role_requirements role_satisfies
met-Step none Tier.factual_extraction (some role) h = create_extraction role
met-Step none Tier.legal_information (some role) h = create_information role
met-Step none Tier.draft_advice (some role) h = create_draft role
met-Step (some Tier.factual_extraction) Tier.legal_information (some role) h = inform role
met-Step (some Tier.factual_extraction) Tier.draft_advice (some role) h = draft role
met-Step (some Tier.legal_information) Tier.draft_advice (some role) h = apply role
met-Step (some Tier.draft_advice) Tier.supervised_legal_advice (some Role.qualified_solicitor) h =
    supervise
met-Step (some Tier.supervised_legal_advice) Tier.approved_final_advice
      (some Role.qualified_solicitor) h =
    approve
met-Step (some Tier.supervised_legal_advice) Tier.approved_final_advice (some Role.workspace_admin)
      h =
    approve_as_admin
met-Step _ _ _ h = cc

Step-met :
    {from : Option Tier} {to : Tier} {role : Option Role}
    → Step from to role
    → met from to role ≡ true
unfolding met role_requirements initial_tier_role_requirements role_satisfies
Step-met (create_extraction role) = refl
Step-met (create_information role) = refl
Step-met (create_draft role) = refl
Step-met (inform role) = refl
Step-met (draft role) = refl
Step-met (apply role) = refl
Step-met supervise = refl
Step-met approve = refl
Step-met approve_as_admin = refl

-- A canonical tier of lower rank, or no tier yet.
abbrev pub Below : Option Tier → Tier → Type 0
Below none to = Unit
Below (some from) to = (1 ≤ rank from) × (rank from < rank to)

-- A step stays within the vocabulary, and leads to a more sensitive tier.
pub Step-rank :
    {from : Option Tier} {to : Tier} {role : Option Role}
    → Step from to role
    → (1 ≤ rank to) × Below from to
Step-rank (create_extraction role) = (omega arith, tt)
Step-rank (create_information role) = (omega arith, tt)
Step-rank (create_draft role) = (omega arith, tt)
Step-rank (inform role) = omega arith
Step-rank (draft role) = omega arith
Step-rank (apply role) = omega arith
Step-rank supervise = omega arith
Step-rank approve = omega arith
Step-rank approve_as_admin = omega arith

assert_tier_iff : (t : Tier) → (assert_tier t ≡ true) ↔ (1 ≤ rank t)
unfolding assert_tier
assert_tier_iff Tier.factual_extraction = ((λ _. omega arith), (λ _. refl))
assert_tier_iff Tier.legal_information = ((λ _. omega arith), (λ _. refl))
assert_tier_iff Tier.draft_advice = ((λ _. omega arith), (λ _. refl))
assert_tier_iff Tier.supervised_legal_advice = ((λ _. omega arith), (λ _. refl))
assert_tier_iff Tier.approved_final_advice = ((λ _. omega arith), (λ _. refl))
assert_tier_iff (Tier.other n) = ((λ h. cc), (λ h. absurd (omega arith)))

-- A qualified solicitor meets every requirement that there is.
initial-met :
    (to : Tier) (required : List Role)
    → initial_tier_role_requirements to ≡ some required
    → met none to (some Role.qualified_solicitor) ≡ true
unfolding met initial_tier_role_requirements role_satisfies
initial-met Tier.factual_extraction required h = refl
initial-met Tier.legal_information required h = refl
initial-met Tier.draft_advice required h = refl
initial-met _ required h = cc

transition-met :
    (from to : Tier)
    → is_allowed_transition from to ≡ true
    → met (some from) to (some Role.qualified_solicitor) ≡ true
unfolding met is_allowed_transition role_requirements role_satisfies
transition-met Tier.factual_extraction Tier.legal_information h = refl
transition-met Tier.factual_extraction Tier.draft_advice h = refl
transition-met Tier.legal_information Tier.draft_advice h = refl
transition-met Tier.draft_advice Tier.supervised_legal_advice h = refl
transition-met Tier.supervised_legal_advice Tier.approved_final_advice h = refl
transition-met _ _ h = cc

Step-allowed :
    {from to : Tier} {role : Option Role}
    → Step (some from) to role
    → (is_terminal_tier from ≡ false) × (is_allowed_transition from to ≡ true)
unfolding is_terminal_tier is_allowed_transition
Step-allowed (inform role) = (refl, refl)
Step-allowed (draft role) = (refl, refl)
Step-allowed (apply role) = (refl, refl)
Step-allowed supervise = (refl, refl)
Step-allowed approve = (refl, refl)
Step-allowed approve_as_admin = (refl, refl)

-- Under either setting somebody may take an authorised step.
someone :
    (gates : Bool) (from : Option Tier) (to : Tier) (role : Option Role)
    → Authorised gates from to role
    → (anybody : Option Role) × Step from to anybody
someone true from to role st = (role, st)
someone false from to role st = st

met-initial :
    (to : Tier) (required : List Role)
    → initial_tier_role_requirements to ≡ some required
    → (role : Option Role) → met none to role ≡ role_satisfies role required
unfolding met
met-initial to required found role = rw (found, met)

met-transition :
    (from to : Tier) (required : List Role)
    → role_requirements from to ≡ some required
    → (role : Option Role) → met (some from) to role ≡ role_satisfies role required
unfolding met
met-transition from to required found role = rw (found, met)

not_initial :
    (to : Tier) (role : Option Role)
    → initial_tier_role_requirements to ≡ none
    → Step none to role
    → ⊥
unfolding met
not_initial to role absent st = ground (arith, Step-met st)

-- Whom the requirement of a step lets through, under the setting.
passes :
    (gates : Bool) (from : Option Tier) (to : Tier) (actor_role : Option Role)
    (required : List Role)
    → ((role : Option Role) → met from to role ≡ role_satisfies role required)
    → met from to (some Role.qualified_solicitor) ≡ true
    → ((not gates || role_satisfies actor_role required) ≡ true)
      ↔ Authorised gates from to actor_role
passes true from to actor_role required same solicitor = (
  (λ p. met-Step from to actor_role (same actor_role ∙ p)),
  (λ st. sym (same actor_role) ∙ Step-met st),
)
passes false from to actor_role required same solicitor =
    ((λ _. (_, met-Step from to _ solicitor)), (λ _. refl))

check_declared_max-answer :
    (max : Option Tier) (id : ℕ) (r : Request) (s : Session)
    → assert_tier r.requested_tier ≡ true
    → opt_assert_tier max ≡ true
    → (answer (check_declared_max max id r s) ≡ true) ↔ Within r.requested_tier max
unfolding check_declared_max opt_assert_tier allow record_decision stop
check_declared_max-answer none id r s h k = ((λ _. tt), (λ _. refl))
check_declared_max-answer (some max) id r s h k =
    rw (assert_tier-rank r.requested_tier h, assert_tier-rank max k, check_declared_max)
      ((λ p. ((assert_tier_iff max).0 k, ground arith)), (λ w. ground arith))

module _ (gates : Bool) (id : ℕ) (r : Request) (s : Session)
    (canonical : assert_tier r.requested_tier ≡ true)
    (ceiling : opt_assert_tier r.declared_tier_max ≡ true) where
  check_role-answer :
      (required : List Role)
      → (answer (check_role gates id r required s) ≡ true) ↔ (
          ((not gates || role_satisfies r.actor_role required) ≡ true)
          × Within r.requested_tier r.declared_tier_max)
  unfolding check_role stop record_decision
  check_role-answer required =
      elim (Bool-cases (not gates || role_satisfies r.actor_role required)) [
        | inl held ↦
            let (sound, complete) =
              check_declared_max-answer r.declared_tier_max id r s canonical ceiling in
            rw held ((λ p. (refl, sound p)), (λ q. complete q.1))
        | inr short ↦ rw short ((λ p. cc), (λ q. cc q.0))
      ]

  nobody :
      initial_tier_role_requirements r.requested_tier ≡ none
      → Authorised gates none r.requested_tier r.actor_role
      → ⊥
  nobody absent a =
      let (role, st) = someone gates none r.requested_tier r.actor_role a in
      not_initial r.requested_tier role absent st

  check_transition-answer :
      (from : Option Tier)
      → (answer (check_transition from gates id r s) ≡ true) ↔ (
          Authorised gates from r.requested_tier r.actor_role
          × Within r.requested_tier r.declared_tier_max)
  unfolding check_transition initial_tier_is_permitted stop record_decision
  check_transition-answer none =
      elim (Option-cases (initial_tier_role_requirements r.requested_tier)) [
        | inl absent ↦ rw (absent, check_transition) ((λ p. cc), (λ q. absurd (nobody absent q.0)))
        | inr (required, found) ↦
            let (sound, complete) = check_role-answer required in
            let (through, back) =
              passes gates none r.requested_tier r.actor_role required
                (met-initial r.requested_tier required found)
                (initial-met r.requested_tier required found) in
            rw (found, check_transition)
              ((λ p. (through (sound p).0, (sound p).1)), (λ q. complete (back q.0, q.1)))
      ]
  check_transition-answer (some from) = elim (Bool-cases (is_terminal_tier from)) [
    | inl terminal ↦ rw terminal (
      (λ p. cc),
      (λ q.
          let (role, st) = someone gates (some from) r.requested_tier r.actor_role q.0 in
          cc (terminal, (Step-allowed st).0)),
    )
    | inr going ↦ rw going (elim (Bool-cases (is_allowed_transition from r.requested_tier)) [
      | inr refused ↦ rw refused (
        (λ p. cc),
        (λ q.
            let (role, st) = someone gates (some from) r.requested_tier r.actor_role q.0 in
            cc (refused, (Step-allowed st).1)),
      )
      | inl passed ↦
          let (required, found) = role_requirements-total from r.requested_tier passed in
          let (sound, complete) = check_role-answer required in
          let (through, back) =
            passes gates (some from) r.requested_tier r.actor_role required
              (met-transition from r.requested_tier required found)
              (transition-met from r.requested_tier passed) in
          rw (passed, found, check_transition)
            ((λ p. (through (sound p).0, (sound p).1)), (λ q. complete (back q.0, q.1)))
    ])
  ]

Within-ceiling :
    (requested : Tier) (max : Option Tier) → Within requested max → opt_assert_tier max ≡ true
unfolding opt_assert_tier
Within-ceiling requested none w = refl
Within-ceiling requested (some max) w = (assert_tier_iff max).1 w.0

Below-valid : (from : Option Tier) (to : Tier) → Below from to → opt_assert_tier from ≡ true
unfolding opt_assert_tier
Below-valid none to b = refl
Below-valid (some from) to b = (assert_tier_iff from).1 b.0

-- What is authorised and within its ceiling speaks of canonical tiers.
Authorised-valid :
    (gates : Bool) (r : Request)
    → Authorised gates r.from_tier r.requested_tier r.actor_role
    → Within r.requested_tier r.declared_tier_max
    → tiers_valid r ≡ true
unfolding tiers_valid
Authorised-valid gates r a w =
    let (role, st) = someone gates r.from_tier r.requested_tier r.actor_role a in
    let (canonical, below) = Step-rank st in
    rw (
      (assert_tier_iff r.requested_tier).1 canonical,
      Below-valid r.from_tier r.requested_tier below,
      Within-ceiling r.requested_tier r.declared_tier_max w,
    )

-- The gate answers `allowed` exactly when the requested step is one that the rules open to the
-- actor (to anybody, while the firm's role gates are off) and the requested tier is not above the
-- declared maximum, which must be a canonical tier.
pub check-allowed_iff :
    (gates : Bool) (id : ℕ) (r : Request) (s : Session)
    → (answer (check gates id r s) ≡ true) ↔ (
        Authorised gates r.from_tier r.requested_tier r.actor_role
        × Within r.requested_tier r.declared_tier_max)
unfolding check tiers_valid record_decision
check-allowed_iff gates id r s = elim (Bool-cases (tiers_valid r)) [
  | inl valid ↦
      rw valid (check_transition-answer gates id r s (ground arith) (ground arith) r.from_tier)
  | inr invalid ↦ rw invalid ((λ p. cc), (λ q. cc (invalid, Authorised-valid gates r q.0 q.1)))
]
