-- ===== src/StateMachine/History.antt =====
-- The calls of the state machine primitive in any order, and what the history says of an instance.
use legalise.Base.{
  ℕ, ◌≡◌, refl, Bool, true, false, not, ◌&&◌, List, [], ◌∷◌, Option, none, some, ◌==◌,
  if◌then◌else◌, arith, is_none,
}
use legalise.Capabilities.{Database}
use legalise.StateMachine.Registry.{
  Shape, Definition, Proposal, Reference, by_id, find_definition, register_definition,
  find_transition,
}
use legalise.StateMachine.Valid.{WellFormed}
use legalise.StateMachine.Runtime.{
  Instance, Status, completed, Row, Store, Request, Handlers, find_instance, create_instance,
  move_instance, request_transition,
}

abbrev pub is_completed : Status → Bool
is_completed completed = true
is_completed _ = false

-- One completed row, taken from the state that its history led to.
abbrev pub follow : Shape → Row → Option ℕ → Option ℕ
follow shape row none = none
follow shape row (some state) =
    if state == row.from_state
      && not (is_none (find_transition row.from_state row.to_state shape.transitions))
    then some row.to_state
    else none

-- The state that the completed rows of an instance lead to, from the initial state along declared
-- transitions only. The rows are newest first.
unfoldable pub replay : Shape → ℕ → List Row → Option ℕ
unfolding find_transition
replay shape id [] = some shape.initial_state
replay shape id (row ∷ rows) =
    let before = replay shape id rows in
    if row.instance_id == id && is_completed row.status then follow shape row before else before

pub data Call : Type 0 where
  register : ℕ → ℕ → ℕ → ℕ → Proposal → Call
  create : ℕ → Reference → ℕ → ℕ → Option ℕ → Call
  request : Handlers → ℕ → Request → Call
  -- another part of the program changes the grants
  regrant : Database → Call

unfoldable pub step : Call → Store → Store
step (register id module_id definition_key version p) s = record s {
  definitions = (register_definition id module_id definition_key version p s.definitions).1;
}
step (create id reference owner_scope owner_id actor_id) s =
    (create_instance id reference owner_scope owner_id actor_id s).1
step (request handlers row_id r) s = (request_transition handlers row_id r s).1
step (regrant db) s = record s { database = db }

unfoldable pub run : List Call → Store → Store
unfolding step
run [] s = s
run (c ∷ cs) s = run cs (step c s)

unfoldable pub empty_store : Database → Store
empty_store db = record { definitions = []; instances = []; rows = []; audits = []; database = db }

-- What holds of the three tables between two calls.
pub record Inv (ds : List Definition) (is : List Instance) (rows : List Row) : Type 0 where
  pub well :
      (test : Definition → Bool) (d : Definition)
      → find_definition test ds ≡ some d
      → WellFormed d.shape
  pub unique :
      (test : Definition → Bool) (d : Definition)
      → find_definition test ds ≡ some d
      → find_definition (by_id d.id) ds ≡ some d
  pub known :
      (id : ℕ) (i : Instance)
      → find_instance id is ≡ some i
      → (d : Definition) × (find_definition (by_id i.definition_id) ds ≡ some d)
  pub fresh :
      (id : ℕ) (shape : Shape)
      → find_instance id is ≡ none
      → replay shape id rows ≡ some shape.initial_state
  pub replayed :
      (id : ℕ) (i : Instance) (d : Definition)
      → find_instance id is ≡ some i
      → find_definition (by_id i.definition_id) ds ≡ some d
      → replay d.shape id rows ≡ some i.current_state

abbrev pub Consistent : Store → Type 0
Consistent s = Inv s.definitions s.instances s.rows

pub id_of_find_instance :
    (id : ℕ) (is : List Instance) {i : Instance} → find_instance id is ≡ some i → i.id ≡ id
unfolding find_instance
id_of_find_instance id [] h = cc
id_of_find_instance id (j ∷ is) {i = i} h = ground (arith, id_of_find_instance id is {i = i})

pub id_of_find_definition :
    (id : ℕ) (ds : List Definition) {d : Definition}
    → find_definition (by_id id) ds ≡ some d
    → d.id ≡ id
unfolding find_definition
id_of_find_definition id [] h = cc
id_of_find_definition id (e ∷ ds) {d = d} h = ground (arith, id_of_find_definition id ds {d = d})

-- a moved instance
abbrev pub moved_option : ℕ → Option Instance → Option Instance
moved_option to_state none = none
moved_option to_state (some i) = some (record i { current_state = to_state })

pub find_instance-move_same :
    (id to_state : ℕ) (is : List Instance)
    → find_instance id (move_instance id to_state is) ≡ moved_option to_state (find_instance id is)
unfolding find_instance move_instance
find_instance-move_same id to_state [] = refl
find_instance-move_same id to_state (j ∷ is) =
    ground (arith, find_instance-move_same id to_state is)

pub find_instance-move_apart :
    (id k to_state : ℕ) (is : List Instance)
    → (k == id) ≡ false
    → find_instance id (move_instance k to_state is) ≡ find_instance id is
unfolding find_instance move_instance
find_instance-move_apart id k to_state [] h = refl
find_instance-move_apart id k to_state (j ∷ is) h =
    ground (arith, find_instance-move_apart id k to_state is h)

pub empty_store-Consistent : (db : Database) → Consistent (empty_store db)
unfolding empty_store find_definition find_instance replay
empty_store-Consistent db = record {
  well = λ test d h. cc;
  unique = λ test d h. cc;
  known = λ id i h. cc;
  fresh = λ id shape h. refl;
  replayed = λ id i d h k. cc;
}
