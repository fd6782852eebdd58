-- ===== src/StateMachine/Permits.antt =====
-- When a request of StateMachine/Runtime.antt is granted, and how far an instance can be taken.
use legalise.Base.{
  ℕ, ◌≡◌, refl, ap, subst, ◌↔◌, inl, inr, Bool, true, false, List, [], ◌∷◌, Option, none, some, All,
  Bool-cases, some-none,
}
use legalise.Capabilities.{Database, exists_grant, satisfies, require_capability, check_or_block}
use legalise.StateMachine.Registry.{
  Transition, Definition, by_id, find_definition, load_definition, or_not_found, find_transition,
}
use legalise.StateMachine.Runtime.{
  Instance, Store, Request, Handlers, GateOutcome, allows, GateRun, passed, judge, set_result, ask,
  run_gates, subject, check_capabilities, find_instance, request_transition, acting_user,
  after_capabilities, after_gates, complete, with_instance, with_definition, take_transition,
  refuse_capability,
}
use legalise.StateMachine.Requests.{completes}

abbrev pub lets_pass : Option GateOutcome → Bool
lets_pass (some (allows _)) = true
lets_pass _ = false

abbrev has_passed : GateRun → Bool
has_passed (passed _) = true
has_passed _ = false

-- The user has a grant in the workspace's scope for each of the capabilities; without a user, none
-- may be required.
abbrev pub HoldsAll : Option ℕ → List ℕ → Database → Type 0
HoldsAll none [] db = Unit
HoldsAll none (_ ∷ _) db = ⊥
HoldsAll (some user_id) capabilities db =
    All (λ c. exists_grant (satisfies (subject user_id c) none) db.grants ≡ true) capabilities

-- The gates that a transition declares are registered, and each of them returns.
abbrev pub AllPass : Handlers → Store → Instance → Transition → Request → Type 0
AllPass handlers s i t r = All (λ g. lets_pass (ask (handlers g) s i t r) ≡ true) t.gates

-- What the primitive promises to grant.
pub record Permitted (handlers : Handlers) (r : Request) (s : Store) : Type 0 where
  pub subject_of : Instance
  pub definition : Definition
  pub transition : Transition
  pub found : find_instance r.instance_id s.instances ≡ some subject_of
  pub stored : find_definition (by_id subject_of.definition_id) s.definitions ≡ some definition
  pub declared :
      find_transition subject_of.current_state r.to_state definition.shape.transitions
      ≡ some transition
  pub held : HoldsAll r.user_id transition.required_capabilities s.database
  pub gated : AllPass handlers s subject_of transition r

allows_of_lets_pass :
    (o : Option GateOutcome) → lets_pass o ≡ true → (x : ℕ) × (o ≡ some (allows x))
allows_of_lets_pass none h = cc
allows_of_lets_pass (some (allows x)) h = (x, refl)
allows_of_lets_pass (some (GateOutcome.raises_blocked _)) h = cc
allows_of_lets_pass (some (GateOutcome.raises _)) h = cc

allows_of_judge :
    (g : ℕ) (o : Option GateOutcome) (continue : ℕ → GateRun)
    → has_passed (judge g o continue) ≡ true
    → (x : ℕ) × (lets_pass o ≡ true) × (has_passed (continue x) ≡ true)
allows_of_judge g none continue h = cc
allows_of_judge g (some (allows x)) continue h = (x, refl, h)
allows_of_judge g (some (GateOutcome.raises_blocked _)) continue h = cc
allows_of_judge g (some (GateOutcome.raises _)) continue h = cc

run_gates-passed :
    (answer : ℕ → Option GateOutcome) (gates : List ℕ) (accumulated : List (ℕ × ℕ))
    → All (λ g. lets_pass (answer g) ≡ true) gates
    → (given : List (ℕ × ℕ)) × (run_gates answer gates accumulated ≡ passed given)
unfolding run_gates
run_gates-passed answer [] accumulated h = (accumulated, refl)
run_gates-passed answer (g ∷ gs) accumulated h =
    let (x, returns) = allows_of_lets_pass (answer g) h.0 in
    let (given, rest) = run_gates-passed answer gs (set_result g x accumulated) h.1 in
    (given, rw (returns) rest)

AllPass-run_gates :
    (answer : ℕ → Option GateOutcome) (gates : List ℕ) (accumulated : List (ℕ × ℕ))
    → has_passed (run_gates answer gates accumulated) ≡ true
    → All (λ g. lets_pass (answer g) ≡ true) gates
unfolding run_gates
AllPass-run_gates answer [] accumulated h = tt
AllPass-run_gates answer (g ∷ gs) accumulated h =
    let (x, first, rest) =
      allows_of_judge g (answer g) (λ result. run_gates answer gs (set_result g result accumulated))
        h in
    (first, AllPass-run_gates answer gs (set_result g x accumulated) rest)

check_capabilities-HoldsAll :
    (user_id actor_id : Option ℕ) (capabilities : List ℕ) (db : Database)
    → HoldsAll user_id capabilities db
    → check_capabilities user_id actor_id capabilities db ≡ (none, db)
unfolding check_capabilities check_or_block require_capability
check_capabilities-HoldsAll none actor_id [] db h = refl
check_capabilities-HoldsAll none actor_id (c ∷ cs) db h = absurd h
check_capabilities-HoldsAll (some u) actor_id [] db h = refl
check_capabilities-HoldsAll (some u) actor_id (c ∷ cs) db h =
    rw (h.0, check_capabilities-HoldsAll (some u) actor_id cs db h.1)

HoldsAll-check_capabilities :
    (user_id actor_id : Option ℕ) (capabilities : List ℕ) (db : Database)
    → (check_capabilities user_id actor_id capabilities db).0 ≡ none
    → HoldsAll user_id capabilities db
unfolding check_capabilities check_or_block require_capability
HoldsAll-check_capabilities none actor_id [] db h = tt
HoldsAll-check_capabilities none actor_id (c ∷ cs) db h = cc
HoldsAll-check_capabilities (some u) actor_id [] db h = tt
HoldsAll-check_capabilities (some u) actor_id (c ∷ cs) db h =
    elim (Bool-cases (exists_grant (satisfies (subject u c) none) db.grants)) [
      | inl granted ↦
          (granted, HoldsAll-check_capabilities (some u) actor_id cs db (rw (granted) at h))
      | inr denied ↦ absurd (some-none (rw (denied) at h))
    ]

refuse_capability-completes :
    (row_id : ℕ) (r : Request) (i : Instance) (capability : ℕ) (user_id : Option ℕ) (s : Store)
    → ¬ (completes (refuse_capability row_id i r capability user_id s).0 ≡ true)
refuse_capability-completes row_id r i capability none s h = cc
refuse_capability-completes row_id r i capability (some _) s h = cc

module _ (handlers : Handlers) (row_id : ℕ) (r : Request) (s : Store) where
  -- A permitted request completes, and moves the instance.
  pub request_of_Permitted :
      (p : Permitted handlers r s)
      → (given : List (ℕ × ℕ)) × (request_transition handlers row_id r s
          ≡ complete row_id p.subject_of r given s)
  unfolding request_transition load_definition
  request_of_Permitted p =
      let (given, ran) =
        run_gates-passed (λ g. ask (handlers g) s p.subject_of p.transition r) p.transition.gates []
          p.gated in
      (
        given,
        rw (
          p.found,
          p.stored,
          p.declared,
          check_capabilities-HoldsAll r.user_id (acting_user r.actor_id r.user_id)
              p.transition.required_capabilities s.database p.held,
          ran,
        ),
      )

  completes_of_Permitted :
      Permitted handlers r s → completes (request_transition handlers row_id r s).0 ≡ true
  unfolding complete
  completes_of_Permitted p = let (given, same) = request_of_Permitted p in rw (same)

  passed_of_completes :
      (i : Instance) (run : GateRun) (s' : Store)
      → completes (after_gates row_id i r run s').0 ≡ true
      → has_passed run ≡ true
  passed_of_completes i (passed given) s' h = refl
  passed_of_completes i (GateRun.gate_stops _) s' h = cc
  passed_of_completes i (GateRun.gate_fails _) s' h = cc

  held_of_completes :
      (i : Instance) (t : Transition) (refusal : Option ℕ) (s' : Store)
      → completes (after_capabilities handlers row_id i t r refusal s').0 ≡ true
      → (refusal ≡ none) × AllPass handlers s' i t r
  held_of_completes i t none s' h = (
    refl,
    AllPass-run_gates (λ g. ask (handlers g) s' i t r) t.gates []
        (passed_of_completes i (run_gates (λ g. ask (handlers g) s' i t r) t.gates []) s' h),
  )
  held_of_completes i t (some capability) s' h =
      absurd (refuse_capability-completes row_id r i capability r.user_id s' h)

  module _ (i : Instance) (found : find_instance r.instance_id s.instances ≡ some i) where
    granted_by_transition :
        (d : Definition) (o : Option Transition)
        → find_definition (by_id i.definition_id) s.definitions ≡ some d
        → find_transition i.current_state r.to_state d.shape.transitions ≡ o
        → completes (take_transition handlers row_id i r d.id o s).0 ≡ true
        → Permitted handlers r s
    granted_by_transition d none stored declared h = cc
    granted_by_transition d (some t) stored declared h =
        let checked =
          check_capabilities r.user_id (acting_user r.actor_id r.user_id) t.required_capabilities
            s.database in
        let (held, gated) = held_of_completes i t checked.0 (record s { database = checked.1 }) h in
        let holds =
          HoldsAll-check_capabilities r.user_id (acting_user r.actor_id r.user_id)
            t.required_capabilities s.database held in
        record {
          subject_of = i;
          definition = d;
          transition = t;
          found = found;
          stored = stored;
          declared = declared;
          held = holds;
          gated =
              subst (λ db. AllPass handlers (record s { database = db }) i t r)
                (ap (λ x. x.1)
                  (check_capabilities-HoldsAll r.user_id (acting_user r.actor_id r.user_id)
                    t.required_capabilities s.database holds))
                gated;
        }

    granted_by_definition :
        (o : Option Definition)
        → find_definition (by_id i.definition_id) s.definitions ≡ o
        → completes (with_definition handlers row_id i r (or_not_found o) s).0 ≡ true
        → Permitted handlers r s
    granted_by_definition none stored h = cc
    granted_by_definition (some d) stored h =
        granted_by_transition d (find_transition i.current_state r.to_state d.shape.transitions)
          stored refl h

  granted_by_instance :
      (o : Option Instance)
      → find_instance r.instance_id s.instances ≡ o
      → completes (with_instance handlers row_id r o s).0 ≡ true
      → Permitted handlers r s
  unfolding load_definition
  granted_by_instance none found h = cc
  granted_by_instance (some i) found h =
      granted_by_definition i found (find_definition (by_id i.definition_id) s.definitions) refl h

  -- A request completes exactly when its instance and definition exist, the first transition that is
  -- declared between the two states requires only capabilities that the user holds, and every gate of
  -- that transition is registered and returns.
  pub request-Permitted :
      (completes (request_transition handlers row_id r s).0 ≡ true) ↔ Permitted handlers r s
  unfolding request_transition
  request-Permitted =
      (granted_by_instance (find_instance r.instance_id s.instances) refl, completes_of_Permitted)
