-- ===== src/StateMachine/Tests.antt =====
-- A definition with three states: 1 leads to 2 with a capability and a gate, 2 leads to 3, which is
-- terminal.
use legalise.Base.{◌≡◌, ◌↔◌, refl, true, List, [], ◌∷◌, none, some, arith}
use legalise.Capabilities.{Database, workspace, satisfies}
use legalise.StateMachine.Registry.{
  Transition, Shape, Definition, of_id, of_key, container, type_error, ok, check_states,
  check_initial, check_terminals, check_member, names, find_definition, find_transition,
  validate_definition, load_definition, register_definition, find_transition, has_duplicates,
}
use legalise.StateMachine.Valid.{WellFormed, validate_definition-WellFormed}
use legalise.StateMachine.Accepts.{as_proposal, validate_definition-as_proposal}
use legalise.StateMachine.Runtime.{
  Instance, Store, Request, phase1_blocked, invalid_transition, builtin_handlers, noop,
  find_instance, request_transition, create_instance, check_capabilities, run_gates, complete,
}
use legalise.StateMachine.Requests.{Handled, completes, request_transition-Handled}
use legalise.StateMachine.History.{Call, register, create, request, run, step, empty_store, replay}
use legalise.StateMachine.Reached.{run-replays, request_terminal}
use legalise.StateMachine.Permits.{Permitted, request-Permitted}
use legalise.StateMachine.Routes.{Route, requests, run-requests}

abbrev first : Transition
first = record { from_state = 1; to_state = 2; gates = noop ∷ []; required_capabilities = 4 ∷ [] }

abbrev second : Transition
second = record { from_state = 2; to_state = 3; gates = []; required_capabilities = [] }

abbrev intake : Shape
intake = record {
  states = 1 ∷ 2 ∷ 3 ∷ [];
  initial_state = 1;
  terminal_states = 3 ∷ [];
  transitions = first ∷ second ∷ [];
}

abbrev intake_v1 : Definition
intake_v1 = record { id = 10; module_id = 11; definition_key = 12; version = 13; shape = intake }

abbrev granted : Database
granted = record {
  grants =
      record {
        user_id = 7;
        plugin = 1;
        skill = 1;
        capability = 4;
        scope_type = workspace;
        scope_id = none;
      }
      ∷ [];
  audits = [];
}

abbrev to_second : Request
to_second = record {
  instance_id = 20;
  to_state = 2;
  user_id = some 7;
  actor_id = none;
  module_id = none;
  reason = none;
  extra_metadata = 0;
}

abbrev setup : List Call
setup = register 10 11 12 13 (as_proposal intake) ∷ create 20 (of_id 10) 30 31 none ∷ []

abbrev to_the_end : List Call
to_the_end =
    register 10 11 12 13 (as_proposal intake)
    ∷ create 20 (of_key (some 11) (some 12) (some 13)) 30 31 none
    ∷ request builtin_handlers 40 (record to_second { user_id = none })
    ∷ request builtin_handlers 41 to_second
    ∷ request builtin_handlers 42 (record to_second { to_state = 3 })
    ∷ []

abbrev fresh_instance : Instance
fresh_instance = record {
  id = 20;
  definition_id = 10;
  definition_version = 13;
  owner_scope = 30;
  owner_id = 31;
  current_state = 1;
}

abbrev ended : Instance
ended = record fresh_instance { current_state = 3 }

abbrev ready : Store
ready = record {
  definitions = intake_v1 ∷ [];
  instances = fresh_instance ∷ [];
  rows = [];
  audits = [];
  database = granted;
}

intake-WellFormed : WellFormed intake
unfolding has_duplicates
intake-WellFormed = record {
  distinct = refl;
  named = (ground arith, (ground arith, (ground arith, tt)));
  initial_in = refl;
  terminals_in = (refl, tt);
  transitions_fit = ((refl, refl, refl), ((refl, refl, refl), tt));
}

validate_definition-WellFormed_example : WellFormed intake
validate_definition-WellFormed_example =
    validate_definition-WellFormed (as_proposal intake)
      (validate_definition-as_proposal intake intake-WellFormed)

validate_definition-as_proposal_example : validate_definition (as_proposal intake) ≡ ok intake
validate_definition-as_proposal_example = validate_definition-as_proposal intake intake-WellFormed

-- A state that is a list raises a TypeError, where a number only makes the definition invalid.
unhashable_state :
    validate_definition (record (as_proposal intake) { terminal_states = some (container ∷ []) })
    ≡ type_error
unfolding validate_definition check_states check_initial check_terminals check_member names
    has_duplicates
unhashable_state = refl

request_transition-Handled_example :
    let result = request_transition builtin_handlers 40 to_second ready in
    Handled ready to_second result.0 result.1
request_transition-Handled_example = request_transition-Handled builtin_handlers 40 to_second ready

request-Permitted_example :
    (completes (request_transition builtin_handlers 40 to_second ready).0 ≡ true)
    ↔ Permitted builtin_handlers to_second ready
request-Permitted_example = request-Permitted builtin_handlers 40 to_second ready

run-replays_example : replay intake 20 (run to_the_end (empty_store granted)).rows ≡ some 3
unfolding run step empty_store find_instance find_definition request_transition create_instance
    load_definition register_definition validate_definition find_transition check_capabilities
    run_gates builtin_handlers complete
run-replays_example = run-replays to_the_end granted 20 ended intake_v1 refl refl

request_terminal_example :
    let result =
      request_transition builtin_handlers 43 to_second (run to_the_end (empty_store granted)) in
    (result.0 ≡ phase1_blocked (invalid_transition 3 2 10))
    × (result.1.instances ≡ (run to_the_end (empty_store granted)).instances)
unfolding run step empty_store find_instance find_definition request_transition create_instance
    load_definition register_definition validate_definition find_transition check_capabilities
    run_gates builtin_handlers complete
request_terminal_example =
    request_terminal to_the_end granted builtin_handlers 43 to_second ended intake_v1 refl refl refl

run-requests_example :
    find_instance 20 (run (requests builtin_handlers 40 to_second (2 ∷ 3 ∷ [])) ready).instances
    ≡ some ended
unfolding find_instance find_definition find_transition satisfies builtin_handlers
run-requests_example =
    run-requests builtin_handlers 40 to_second (2 ∷ 3 ∷ []) ready fresh_instance intake_v1 3 refl
      refl
      (Route.via first refl (refl, tt) ((λ s i t r. refl), tt)
        (Route.via second refl tt tt Route.arrived))
