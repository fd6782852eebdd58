-- ===== src/StateMachine/Runtime.antt =====
-- backend/contrib/state_machine/runtime.py: instances of a definition, and requests to move one
-- along a transition. A request is judged in the order of the source (definition, transition,
-- capabilities, gates), and every request on an instance appends one row. Gate handlers belong to
-- the modules that register them, so they are a parameter: a handler reads the store and answers.
use legalise.Base.{ℕ, take, List, [], ◌∷◌, Option, none, some, ◌==◌, if◌then◌else◌}
use legalise.Capabilities.{Database, Subject, check_or_block}
use legalise.StateMachine.Registry.{
  Transition, Definition, Reference, of_id, Loaded, loaded, definition_not_found, value_error,
  load_definition, find_transition, available_transitions,
}

pub record Instance : Type 0 where
  pub id : ℕ
  pub definition_id : ℕ
  pub definition_version : ℕ
  pub owner_scope : ℕ
  pub owner_id : ℕ
  pub current_state : ℕ

-- BlockedPayload
pub data Block : Type 0 where
  invalid_transition : ℕ → ℕ → ℕ → Block
  capability_denied : ℕ → Block
  gate_not_registered : ℕ → Block
  -- the payload that a handler raised
  gate_blocked : ℕ → Block

pub data Failure : Type 0 where
  definition_missing : Failure
  -- the gate and the text of the exception
  gate_handler_failed : ℕ → ℕ → Failure

-- The `gate_state` of a row, with the results of the gates by their ids.
pub data GateState : Type 0 where
  results : List (ℕ × ℕ) → GateState
  blocked_payload : Block → GateState
  failure : Failure → GateState

pub data Status : Type 0 where
  completed blocked failed : Status

-- StateMachineTransition
pub record Row : Type 0 where
  pub id : ℕ
  pub instance_id : ℕ
  pub from_state : ℕ
  pub to_state : ℕ
  pub actor_id : Option ℕ
  pub module_id : Option ℕ
  pub capability_id : Option ℕ
  pub reason : Option ℕ
  pub extra_metadata : ℕ
  pub gate_state : GateState
  pub status : Status

pub data Audit : Type 0 where
  -- the instance, its definition, its initial state and the actor
  instance_created : ℕ → ℕ → ℕ → Option ℕ → Audit
  -- the row, the version of the definition, and what blocked or failed it
  transition_outcome : Status → Row → ℕ → Audit

-- The tables. Rows and audits are newest first.
pub record Store : Type 0 where
  pub definitions : List Definition
  pub instances : List Instance
  pub rows : List Row
  pub audits : List Audit
  pub database : Database

pub record Request : Type 0 where
  pub instance_id : ℕ
  pub to_state : ℕ
  pub user_id : Option ℕ
  pub actor_id : Option ℕ
  pub module_id : Option ℕ
  pub reason : Option ℕ
  pub extra_metadata : ℕ

pub data GateOutcome : Type 0 where
  -- returns the result, 0 for None and for an empty dict
  allows : ℕ → GateOutcome
  -- raises Phase1Blocked, or another exception
  raises_blocked : ℕ → GateOutcome
  raises : ℕ → GateOutcome

abbrev pub Handler : Type 0
Handler = Store → Instance → Transition → Request → GateOutcome

-- `_GATE_HANDLERS`
abbrev pub Handlers : Type 0
Handlers = ℕ → Option Handler

abbrev pub noop : ℕ
noop = 1

-- the result of `_noop_gate`
abbrev noop_gate : Handler
noop_gate s i t r = allows 1

unfoldable pub register_gate : ℕ → Handler → Handlers → Handlers
register_gate gate_id handler handlers g = if g == gate_id then some handler else handlers g

unfoldable pub unregister_gate : ℕ → Handlers → Handlers
unregister_gate gate_id handlers g = if g == gate_id then none else handlers g

-- The handlers at import.
unfoldable pub builtin_handlers : Handlers
unfolding register_gate
builtin_handlers = register_gate noop noop_gate (λ _. none)

unfoldable pub find_instance : ℕ → List Instance → Option Instance
find_instance id [] = none
find_instance id (i ∷ is) = if i.id == id then some i else find_instance id is

pub data Created : Type 0 where
  created : Instance → Created
  not_found invalid_arguments integrity_error : Created

abbrev pub insert_instance : Instance → Option ℕ → ℕ → Option Instance → Store → Created × Store
insert_instance i actor_id definition_id (some _) s = (integrity_error, s)
insert_instance i actor_id definition_id none s = (
  created i,
  record s {
    instances = i ∷ s.instances;
    audits = instance_created i.id definition_id i.current_state actor_id ∷ s.audits;
  },
)

abbrev pub create_from : ℕ → ℕ → ℕ → Option ℕ → Loaded → Store → Created × Store
create_from id owner_scope owner_id actor_id definition_not_found s = (not_found, s)
create_from id owner_scope owner_id actor_id value_error s = (invalid_arguments, s)
create_from id owner_scope owner_id actor_id (loaded d) s =
    insert_instance
      (record {
        id = id;
        definition_id = d.id;
        definition_version = d.version;
        owner_scope = owner_scope;
        owner_id = owner_id;
        current_state = d.shape.initial_state;
      })
      actor_id d.id (find_instance id s.instances) s

-- `id` is the `uuid4()` of the new row.
unfoldable pub create_instance : ℕ → Reference → ℕ → ℕ → Option ℕ → Store → Created × Store
create_instance id reference owner_scope owner_id actor_id s =
    create_from id owner_scope owner_id actor_id (load_definition reference s.definitions) s

-- `if actor_id is None: actor_id = user_id`
abbrev pub acting_user : Option ℕ → Option ℕ → Option ℕ
acting_user none user_id = user_id
acting_user (some actor_id) user_id = some actor_id

abbrev pub new_row : ℕ → Instance → Request → Option ℕ → GateState → Status → Row
new_row row_id i r capability_id gate_state status = record {
  id = row_id;
  instance_id = i.id;
  from_state = i.current_state;
  to_state = r.to_state;
  actor_id = acting_user r.actor_id r.user_id;
  module_id = r.module_id;
  capability_id = capability_id;
  reason = r.reason;
  extra_metadata = r.extra_metadata;
  gate_state = gate_state;
  status = status;
}

abbrev pub append_transition : Row → Store → Store
append_transition row s = record s { rows = row ∷ s.rows }

abbrev pub emit_outcome_audit : Instance → Row → Store → Store
emit_outcome_audit i row s = record s {
  audits = transition_outcome row.status row i.definition_version ∷ s.audits;
}

-- What a request raises, or that it returns.
pub data Outcome : Type 0 where
  done : Row → Instance → Outcome
  phase1_blocked : Block → Outcome
  phase1_failed : Failure → Outcome
  instance_not_found : Outcome

-- The row and the audit of a block, and of a failure.
abbrev pub block : ℕ → Instance → Request → Option ℕ → Block → Store → Outcome × Store
block row_id i r capability_id b s =
    let row = new_row row_id i r capability_id (blocked_payload b) blocked in
    (phase1_blocked b, emit_outcome_audit i row (append_transition row s))

abbrev pub fail : ℕ → Instance → Request → Failure → Store → Outcome × Store
fail row_id i r f s =
    let row = new_row row_id i r none (failure f) failed in
    (phase1_failed f, emit_outcome_audit i row (append_transition row s))

-- The defaults of `check_or_block`: the plugin "core", and the skill "state_machine".
abbrev core_plugin : ℕ
core_plugin = 1

abbrev state_machine_skill : ℕ
state_machine_skill = 1

-- The action `state_machine.transition.blocked`.
abbrev transition_blocked : ℕ
transition_blocked = 1

abbrev pub subject : ℕ → ℕ → Subject
subject user_id capability = record {
  user_id = user_id;
  plugin = core_plugin;
  skill = state_machine_skill;
  capability = capability;
}

-- The capability that is refused, and the database after the checks. Without a user nothing is
-- asked of the database.
unfoldable pub check_capabilities : Option ℕ → Option ℕ → List ℕ → Database → Option ℕ × Database
unfolding check_or_block
check_capabilities user_id actor_id [] db = (none, db)
check_capabilities none actor_id (capability ∷ more) db = (some capability, db)
check_capabilities (some user_id) actor_id (capability ∷ more) db =
    let (held, db') =
      check_or_block (subject user_id capability) transition_blocked actor_id none db in
    let rest = check_capabilities (some user_id) actor_id more db' in
    if held then rest else (some capability, db')

pub data GateRun : Type 0 where
  passed : List (ℕ × ℕ) → GateRun
  gate_stops : Block → GateRun
  gate_fails : Failure → GateRun

-- `gate_state_accumulated[gate_id] = result`
unfoldable pub set_result : ℕ → ℕ → List (ℕ × ℕ) → List (ℕ × ℕ)
set_result gate_id result [] = (gate_id, result) ∷ []
set_result gate_id result ((g, old) ∷ more) =
    let rest = set_result gate_id result more in
    if g == gate_id then (g, result) ∷ more else (g, old) ∷ rest

-- `_GATE_HANDLERS.get(gate_id)`, called where it is found
abbrev pub ask : Option Handler → Store → Instance → Transition → Request → Option GateOutcome
ask none s i t r = none
ask (some handler) s i t r = some (handler s i t r)

-- One gate: a handler that returns goes on with its result.
abbrev pub judge : ℕ → Option GateOutcome → (ℕ → GateRun) → GateRun
judge gate_id none continue = gate_stops (gate_not_registered gate_id)
judge gate_id (some (allows result)) continue = continue result
judge gate_id (some (raises_blocked payload)) continue = gate_stops (gate_blocked payload)
judge gate_id (some (raises detail)) continue = gate_fails (gate_handler_failed gate_id detail)

-- The gates in order, each judged by the answer of its handler.
unfoldable pub run_gates : (ℕ → Option GateOutcome) → List ℕ → List (ℕ × ℕ) → GateRun
run_gates answer [] accumulated = passed accumulated
run_gates answer (gate_id ∷ more) accumulated =
    judge gate_id (answer gate_id)
      (λ result. run_gates answer more (set_result gate_id result accumulated))

-- `instance.current_state = to_state`
unfoldable pub move_instance : ℕ → ℕ → List Instance → List Instance
move_instance id to_state [] = []
move_instance id to_state (i ∷ is) =
    let rest = move_instance id to_state is in
    if i.id == id then record i { current_state = to_state } ∷ is else i ∷ rest

unfoldable pub complete : ℕ → Instance → Request → List (ℕ × ℕ) → Store → Outcome × Store
unfolding move_instance
complete row_id i r accumulated s =
    let row = new_row row_id i r none (results accumulated) completed in
    let s' = record s {
      rows = row ∷ s.rows;
      instances = move_instance i.id r.to_state s.instances;
    } in
    (done row (record i { current_state = r.to_state }), emit_outcome_audit i row s')

abbrev pub after_gates : ℕ → Instance → Request → GateRun → Store → Outcome × Store
after_gates row_id i r (passed accumulated) s = complete row_id i r accumulated s
after_gates row_id i r (gate_stops b) s = block row_id i r none b s
after_gates row_id i r (gate_fails f) s = fail row_id i r f s

-- Without a user the source writes the audit itself; on a denial `check_or_block` has written it.
abbrev pub refuse_capability : ℕ → Instance → Request → ℕ → Option ℕ → Store → Outcome × Store
refuse_capability row_id i r capability none s =
    block row_id i r (some capability) (capability_denied capability) s
refuse_capability row_id i r capability (some _) s = (
  phase1_blocked (capability_denied capability),
  append_transition
      (new_row row_id i r (some capability) (blocked_payload (capability_denied capability))
        blocked)
      s,
)

abbrev pub after_capabilities :
    Handlers → ℕ → Instance → Transition → Request → Option ℕ → Store → Outcome × Store
after_capabilities handlers row_id i t r none s =
    after_gates row_id i r (run_gates (λ g. ask (handlers g) s i t r) t.gates []) s
after_capabilities handlers row_id i t r (some capability) s =
    refuse_capability row_id i r capability r.user_id s

abbrev pub take_transition :
    Handlers → ℕ → Instance → Request → ℕ → Option Transition → Store → Outcome × Store
take_transition handlers row_id i r definition_id none s =
    block row_id i r none (invalid_transition i.current_state r.to_state definition_id) s
take_transition handlers row_id i r definition_id (some t) s =
    let (refused, db) =
      check_capabilities r.user_id (acting_user r.actor_id r.user_id) t.required_capabilities
        s.database in
    after_capabilities handlers row_id i t r refused (record s { database = db })

abbrev pub with_definition : Handlers → ℕ → Instance → Request → Loaded → Store → Outcome × Store
with_definition handlers row_id i r (loaded d) s =
    take_transition handlers row_id i r d.id
      (find_transition i.current_state r.to_state d.shape.transitions) s
with_definition handlers row_id i r _ s = fail row_id i r definition_missing s

abbrev pub with_instance : Handlers → ℕ → Request → Option Instance → Store → Outcome × Store
with_instance handlers row_id r none s = (instance_not_found, s)
with_instance handlers row_id r (some i) s =
    with_definition handlers row_id i r (load_definition (of_id i.definition_id) s.definitions) s

-- `row_id` is the `uuid4()` of the row that the request appends.
unfoldable pub request_transition : Handlers → ℕ → Request → Store → Outcome × Store
request_transition handlers row_id r s =
    with_instance handlers row_id r (find_instance r.instance_id s.instances) s

-- The rows of an instance, newest first, and at most `limit` of them.
unfoldable pub rows_of : ℕ → List Row → List Row
rows_of instance_id [] = []
rows_of instance_id (row ∷ rows) =
    let rest = rows_of instance_id rows in
    if row.instance_id == instance_id then row ∷ rest else rest

unfoldable pub read_history : ℕ → ℕ → Store → List Row
unfolding rows_of
read_history instance_id limit s = take limit (rows_of instance_id s.rows)

pub data Read : Type 0 where
  read : Instance → Definition → List Transition → List Row → Read
  no_instance no_definition : Read

-- `limit: int = 100`
abbrev history_limit : ℕ
history_limit = 100

abbrev read_with : ℕ → Instance → Loaded → Store → Read
read_with instance_id i (loaded d) s =
    read i d (available_transitions i.current_state d.shape.transitions)
      (read_history instance_id history_limit s)
read_with instance_id i _ s = no_definition

abbrev read_found : ℕ → Option Instance → Store → Read
read_found instance_id none s = no_instance
read_found instance_id (some i) s =
    read_with instance_id i (load_definition (of_id i.definition_id) s.definitions) s

unfoldable pub read_instance : ℕ → Store → Read
read_instance instance_id s = read_found instance_id (find_instance instance_id s.instances) s
