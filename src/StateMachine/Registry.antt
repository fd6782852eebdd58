-- ===== src/StateMachine/Registry.antt =====
-- backend/contrib/state_machine/registry.py: a definition is checked when it is registered, stored
-- once for each version, and looked up. What a module passes is a value of Python, which may have
-- any type; that `set` and `in` raise a TypeError on a value that has no hash is part of the model.
use legalise.Base.{
  ℕ, zero, suc, ◌+◌, Bool, true, false, not, ◌&&◌, ◌||◌, List, [], ◌∷◌, ◌++◌, Option, none, some,
  ◌==◌, member, if◌then◌else◌,
}

pub data Value : Type 0 where
  -- a `str`
  text : ℕ → Value
  -- None, a number or a Boolean
  scalar : Value
  -- a list or a dict, which has no hash
  container : Value

-- A key of a dict that should hold a list.
pub data Field : Type 0 where
  absent not_list : Field
  items : List Value → Field

pub data RawTransition : Type 0 where
  not_dict : RawTransition
  -- `from`, `to`, `gates` and `required_capabilities`; a missing state is None, a scalar
  dict : Value → Value → Field → Field → RawTransition

pub record Transition : Type 0 where
  pub from_state : ℕ
  pub to_state : ℕ
  pub gates : List ℕ
  pub required_capabilities : List ℕ

-- The checked part of a definition.
pub record Shape : Type 0 where
  pub states : List ℕ
  pub initial_state : ℕ
  pub terminal_states : List ℕ
  pub transitions : List Transition

pub record Definition : Type 0 where
  pub id : ℕ
  pub module_id : ℕ
  pub definition_key : ℕ
  pub version : ℕ
  pub shape : Shape

-- The reasons of InvalidDefinitionError, with the index of the transition.
pub data Reason : Type 0 where
  states_empty state_not_text duplicate_states initial_not_member terminals_not_list : Reason
  terminal_not_member transitions_not_list : Reason
  transition_not_dict from_not_member to_not_member from_is_terminal : ℕ → Reason
  gates_not_texts capabilities_not_texts : ℕ → Reason

pub data Checked (A : Type 0) : Type 0 where
  ok : A → Checked A
  invalid : Reason → Checked A
  type_error : Checked A

-- A check that raises ends the ones after it.
infixl 5 ◌>>=◌
abbrev pub ◌>>=◌ : {A B : Type 0} → Checked A → (A → Checked B) → Checked B
type_error >>= next = type_error
invalid reason >>= next = invalid reason
ok found >>= next = next found

abbrev pub cons_option : {A : Type 0} → A → Option (List A) → Option (List A)
cons_option x none = none
cons_option x (some xs) = some (x ∷ xs)

-- `all(isinstance(g, str) for g in …)`, with the texts
unfoldable pub texts : List Value → Option (List ℕ)
texts [] = some []
texts (text t ∷ vs) = cons_option t (texts vs)
texts (_ ∷ vs) = none

-- `all(isinstance(s, str) and s for s in …)`, with the texts
unfoldable pub names : List Value → Option (List ℕ)
names [] = some []
names (text zero ∷ vs) = none
names (text (suc t) ∷ vs) = cons_option (suc t) (names vs)
names (_ ∷ vs) = none

unfoldable pub has_duplicates : List ℕ → Bool
has_duplicates [] = false
has_duplicates (x ∷ xs) = member x xs || has_duplicates xs

abbrev pub check_names : Option (List ℕ) → Checked (List ℕ)
check_names none = invalid state_not_text
check_names (some ss) = if has_duplicates ss then invalid duplicate_states else ok ss

unfoldable pub check_states : Option (List Value) → Checked (List ℕ)
unfolding names has_duplicates
check_states none = invalid states_empty
check_states (some []) = invalid states_empty
check_states (some (v ∷ vs)) = check_names (names (v ∷ vs))

-- `value not in states_set`, which raises `reason`, and otherwise the text
unfoldable pub check_member : Reason → List ℕ → Value → Checked ℕ
check_member reason states (text t) = if member t states then ok t else invalid reason
check_member reason states scalar = invalid reason
check_member reason states container = type_error

-- The test of `initial_state`, which looks at its type first.
unfoldable pub check_initial : List ℕ → Value → Checked ℕ
check_initial states (text t) = if member t states then ok t else invalid initial_not_member
check_initial states _ = invalid initial_not_member

unfoldable pub check_terminals : List ℕ → List Value → Checked (List ℕ)
unfolding check_member
check_terminals states [] = ok []
check_terminals states (v ∷ vs) = do
  t ← check_member terminal_not_member states v
  ts ← check_terminals states vs
  ok (t ∷ ts)

abbrev option_checked : Reason → Option (List ℕ) → Checked (List ℕ)
option_checked reason none = invalid reason
option_checked reason (some ts) = ok ts

unfoldable pub check_texts : Reason → Field → Checked (List ℕ)
unfolding texts
check_texts reason absent = ok []
check_texts reason not_list = invalid reason
check_texts reason (items vs) = option_checked reason (texts vs)

abbrev pub check_not_terminal : Reason → List ℕ → ℕ → Checked Unit
check_not_terminal reason terminals from_state =
    if member from_state terminals then invalid reason else ok tt

unfoldable pub check_raw_transition : ℕ → List ℕ → List ℕ → RawTransition → Checked Transition
unfolding check_member check_texts
check_raw_transition idx states terminals not_dict = invalid (transition_not_dict idx)
check_raw_transition idx states terminals (dict raw_from raw_to raw_gates raw_capabilities) = do
  from_state ← check_member (from_not_member idx) states raw_from
  to_state ← check_member (to_not_member idx) states raw_to
  _ ← check_not_terminal (from_is_terminal idx) terminals from_state
  gates ← check_texts (gates_not_texts idx) raw_gates
  capabilities ← check_texts (capabilities_not_texts idx) raw_capabilities
  ok (record {
    from_state = from_state;
    to_state = to_state;
    gates = gates;
    required_capabilities = capabilities;
  })

-- The loop over the transitions, from the index `idx`.
unfoldable pub check_transitions :
    ℕ → List ℕ → List ℕ → List RawTransition → Checked (List Transition)
unfolding check_raw_transition
check_transitions idx states terminals [] = ok []
check_transitions idx states terminals (raw ∷ raws) = do
  t ← check_raw_transition idx states terminals raw
  ts ← check_transitions (idx + 1) states terminals raws
  ok (t ∷ ts)

abbrev pub option_list : {A : Type 0} → Reason → Option (List A) → Checked (List A)
option_list reason none = invalid reason
option_list reason (some xs) = ok xs

-- `none` is an argument that is not a list.
pub record Proposal : Type 0 where
  pub states : Option (List Value)
  pub initial_state : Value
  pub terminal_states : Option (List Value)
  pub transitions : Option (List RawTransition)

unfoldable pub validate_definition : Proposal → Checked Shape
unfolding check_states check_initial check_terminals check_transitions
validate_definition p = do
  states ← check_states p.states
  initial_state ← check_initial states p.initial_state
  raw_terminals ← option_list terminals_not_list p.terminal_states
  terminals ← check_terminals states raw_terminals
  raws ← option_list transitions_not_list p.transitions
  transitions ← check_transitions 0 states terminals raws
  ok (record {
    states = states;
    initial_state = initial_state;
    terminal_states = terminals;
    transitions = transitions;
  })

pub data Registered : Type 0 where
  registered : Definition → Registered
  -- InvalidDefinitionError
  rejected : Reason → Registered
  -- TypeError of the check
  unhashable : Registered
  -- the database's, for an id that is taken
  integrity_error : Registered

abbrev pub by_id : ℕ → Definition → Bool
by_id id d = d.id == id

abbrev pub by_key : ℕ → ℕ → ℕ → Definition → Bool
by_key module_id definition_key version d =
    d.module_id == module_id && d.definition_key == definition_key && d.version == version

unfoldable pub find_definition : (Definition → Bool) → List Definition → Option Definition
find_definition test [] = none
find_definition test (d ∷ ds) = if test d then some d else find_definition test ds

abbrev pub insert_definition :
    Definition → Option Definition → List Definition → Registered × List Definition
insert_definition d (some _) ds = (integrity_error, ds)
insert_definition d none ds = (registered d, d ∷ ds)

abbrev pub return_or_insert :
    Option Definition → Definition → List Definition → Registered × List Definition
return_or_insert (some existing) d ds = (registered existing, ds)
return_or_insert none d ds = insert_definition d (find_definition (by_id d.id) ds) ds

abbrev pub register_shape :
    ℕ → ℕ → ℕ → ℕ → Checked Shape → List Definition → Registered × List Definition
register_shape id module_id definition_key version (invalid reason) ds = (rejected reason, ds)
register_shape id module_id definition_key version type_error ds = (unhashable, ds)
register_shape id module_id definition_key version (ok shape) ds =
    return_or_insert (find_definition (by_key module_id definition_key version) ds)
      (record {
        id = id;
        module_id = module_id;
        definition_key = definition_key;
        version = version;
        shape = shape;
      })
      ds

-- `id` is the `uuid4()` of the new row.
unfoldable pub register_definition :
    ℕ → ℕ → ℕ → ℕ → Proposal → List Definition → Registered × List Definition
unfolding find_definition
register_definition id module_id definition_key version p ds =
    register_shape id module_id definition_key version (validate_definition p) ds

-- The arguments that name a definition; `none` and an empty text are missing.
pub data Reference : Type 0 where
  of_id : ℕ → Reference
  of_key : Option ℕ → Option ℕ → Option ℕ → Reference

pub data Loaded : Type 0 where
  loaded : Definition → Loaded
  definition_not_found value_error : Loaded

abbrev pub or_not_found : Option Definition → Loaded
or_not_found none = definition_not_found
or_not_found (some d) = loaded d

abbrev pub is_given : Option ℕ → Bool
is_given none = false
is_given (some n) = not (n == 0)

unfoldable pub load_definition : Reference → List Definition → Loaded
unfolding find_definition
load_definition (of_id id) ds = or_not_found (find_definition (by_id id) ds)
load_definition (of_key (some module_id) (some definition_key) (some version)) ds =
    if is_given (some module_id) && is_given (some definition_key) && is_given (some version)
    then or_not_found (find_definition (by_key module_id definition_key version) ds)
    else value_error
load_definition (of_key _ _ _) ds = value_error

unfoldable pub find_transition : ℕ → ℕ → List Transition → Option Transition
find_transition from_state to_state [] = none
find_transition from_state to_state (t ∷ ts) =
    if t.from_state == from_state && t.to_state == to_state
    then some t
    else find_transition from_state to_state ts

unfoldable pub available_transitions : ℕ → List Transition → List Transition
available_transitions current_state [] = []
available_transitions current_state (t ∷ ts) =
    let rest = available_transitions current_state ts in
    if t.from_state == current_state then t ∷ rest else rest

-- `definition_key is None or …`, and the same of the module
abbrev fits_filter : Option ℕ → ℕ → Bool
fits_filter none x = true
fits_filter (some wanted) x = x == wanted

-- The definitions are newest first, and the list is ordered by the time of creation.
unfoldable pub list_definitions : Option ℕ → Option ℕ → List Definition → List Definition
list_definitions module_id definition_key [] = []
list_definitions module_id definition_key (d ∷ ds) =
    let rest = list_definitions module_id definition_key ds in
    if fits_filter module_id d.module_id && fits_filter definition_key d.definition_key
    then rest ++ d ∷ []
    else rest
