-- ===== src/StateMachine/Requests.antt =====
-- Every branch of `request_transition` of StateMachine/Runtime.antt, as one step of the store.
use legalise.Base.{ℕ, ◌≡◌, refl, Bool, true, false, [], ◌∷◌, Option, none, some}
use legalise.Capabilities.{Database}
use legalise.StateMachine.Registry.{
  Transition, Definition, by_id, find_definition, load_definition, find_transition, or_not_found,
}
use legalise.StateMachine.Runtime.{
  Instance, Block, Failure, blocked_payload, failure, definition_missing, capability_denied,
  invalid_transition, Status, completed, blocked, failed, Row, Store, Request, Handlers, results,
  find_instance, Outcome, done, phase1_blocked, phase1_failed, instance_not_found, new_row, block,
  fail, check_capabilities, GateRun, passed, gate_stops, gate_fails, run_gates, ask, move_instance,
  complete, after_gates, after_capabilities, refuse_capability, take_transition, with_definition,
  with_instance, request_transition, acting_user,
}

-- What a request leaves in the history; nothing for an instance that does not exist.
abbrev pub status_of : Outcome → Option Status
status_of (done _ _) = some completed
status_of (phase1_blocked _) = some blocked
status_of (phase1_failed _) = some failed
status_of instance_not_found = none

abbrev pub completes : Outcome → Bool
completes (done _ _) = true
completes _ = false

-- The row records the request as it was made.
abbrev pub Records : Instance → Request → Row → Type 0
Records i r row =
    (row.instance_id ≡ i.id) × (row.from_state ≡ i.current_state) × (row.to_state ≡ r.to_state)

-- The steps from `s` to `s'` that a request can make.
pub data Handled (s : Store) (r : Request) (o : Outcome) (s' : Store) : Type 0 where
  missing :
      find_instance r.instance_id s.instances ≡ none
      → o ≡ instance_not_found
      → s' ≡ s
      → Handled s r o s'
  refused :
      (i : Instance) (row : Row)
      → find_instance r.instance_id s.instances ≡ some i
      → Records i r row
      → completes o ≡ false
      → status_of o ≡ some row.status
      → s'.definitions ≡ s.definitions
      → s'.instances ≡ s.instances
      → s'.rows ≡ row ∷ s.rows
      → Handled s r o s'
  moved :
      (i : Instance) (row : Row) (d : Definition) (t : Transition)
      → find_instance r.instance_id s.instances ≡ some i
      → find_definition (by_id i.definition_id) s.definitions ≡ some d
      → find_transition i.current_state r.to_state d.shape.transitions ≡ some t
      → Records i r row
      → row.status ≡ completed
      → completes o ≡ true
      → s'.definitions ≡ s.definitions
      → s'.instances ≡ move_instance i.id r.to_state s.instances
      → s'.rows ≡ row ∷ s.rows
      → Handled s r o s'

module _ (handlers : Handlers) (row_id : ℕ) (r : Request) (s : Store) where
  module _ (i : Instance) (found : find_instance r.instance_id s.instances ≡ some i) where
    block-Handled :
        (capability_id : Option ℕ) (b : Block) (db : Database)
        → let result = block row_id i r capability_id b (record s { database = db }) in
          Handled s r result.0 result.1
    block-Handled capability_id b db =
        Handled.refused i (new_row row_id i r capability_id (blocked_payload b) blocked) found
          (refl, refl, refl) refl refl refl refl refl

    fail-Handled :
        (f : Failure) (db : Database)
        → let result = fail row_id i r f (record s { database = db }) in
          Handled s r result.0 result.1
    fail-Handled f db =
        Handled.refused i (new_row row_id i r none (failure f) failed) found (refl, refl, refl) refl
          refl refl refl refl

    refuse_capability-Handled :
        (capability : ℕ) (user_id : Option ℕ) (db : Database)
        → let result =
            refuse_capability row_id i r capability user_id (record s { database = db }) in
          Handled s r result.0 result.1
    refuse_capability-Handled capability none db =
        block-Handled (some capability) (capability_denied capability) db
    refuse_capability-Handled capability (some user_id) db =
        Handled.refused i
          (new_row row_id i r (some capability) (blocked_payload (capability_denied capability))
            blocked)
          found (refl, refl, refl) refl refl refl refl refl

    module _ (d : Definition) (t : Transition)
        (known : find_definition (by_id i.definition_id) s.definitions ≡ some d)
        (declared : find_transition i.current_state r.to_state d.shape.transitions ≡ some t) where
      after_gates-Handled :
          (run : GateRun) (db : Database)
          → let result = after_gates row_id i r run (record s { database = db }) in
            Handled s r result.0 result.1
      unfolding complete
      after_gates-Handled (passed accumulated) db =
          Handled.moved i (new_row row_id i r none (results accumulated) completed) d t found known
            declared (refl, refl, refl) refl refl refl refl refl
      after_gates-Handled (gate_stops b) db = block-Handled none b db
      after_gates-Handled (gate_fails f) db = fail-Handled f db

      after_capabilities-Handled :
          (refusal : Option ℕ) (db : Database)
          → let result =
              after_capabilities handlers row_id i t r refusal (record s { database = db }) in
            Handled s r result.0 result.1
      after_capabilities-Handled none db =
          after_gates-Handled
            (run_gates (λ g. ask (handlers g) (record s { database = db }) i t r) t.gates []) db
      after_capabilities-Handled (some capability) db =
          refuse_capability-Handled capability r.user_id db

    take_transition-Handled :
        (d : Definition) (o : Option Transition)
        → find_definition (by_id i.definition_id) s.definitions ≡ some d
        → find_transition i.current_state r.to_state d.shape.transitions ≡ o
        → let result = take_transition handlers row_id i r d.id o s in Handled s r result.0 result.1
    take_transition-Handled d none known declared =
        block-Handled none (invalid_transition i.current_state r.to_state d.id) s.database
    take_transition-Handled d (some t) known declared =
        let (refusal, db) =
          check_capabilities r.user_id (acting_user r.actor_id r.user_id) t.required_capabilities
            s.database in
        after_capabilities-Handled d t known declared refusal db

    with_definition-Handled :
        (o : Option Definition)
        → find_definition (by_id i.definition_id) s.definitions ≡ o
        → let result = with_definition handlers row_id i r (or_not_found o) s in
          Handled s r result.0 result.1
    with_definition-Handled none known = fail-Handled definition_missing s.database
    with_definition-Handled (some d) known =
        take_transition-Handled d (find_transition i.current_state r.to_state d.shape.transitions)
          known refl

  with_instance-Handled :
      (o : Option Instance)
      → find_instance r.instance_id s.instances ≡ o
      → let result = with_instance handlers row_id r o s in Handled s r result.0 result.1
  unfolding load_definition
  with_instance-Handled none found = Handled.missing found refl refl
  with_instance-Handled (some i) found =
      with_definition-Handled i found (find_definition (by_id i.definition_id) s.definitions) refl

  -- A request is one of three steps: nothing, for an unknown instance; a row of the request that is
  -- blocked or failed, with no instance changed; or a completed row of a declared transition, with
  -- that instance moved. No row that was there before is changed.
  pub request_transition-Handled :
      let result = request_transition handlers row_id r s in Handled s r result.0 result.1
  unfolding request_transition
  request_transition-Handled = with_instance-Handled (find_instance r.instance_id s.instances) refl
