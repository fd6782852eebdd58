-- ===== src/StateMachine/Accepts.antt =====
-- Every well-formed definition of StateMachine/Registry.antt is accepted as it stands.
use legalise.Base.{ℕ, zero, suc, ◌+◌, ◌≡◌, refl, false, List, [], ◌∷◌, some, All, map}
use legalise.StateMachine.Registry.{
  text, items, RawTransition, dict, Transition, Shape, ok, texts, names, has_duplicates,
  check_states, check_member, check_initial, check_terminals, check_texts, check_raw_transition,
  check_transitions, Proposal, validate_definition, Reason,
}
use legalise.StateMachine.Valid.{Fits, IsIn, Named, WellFormed}

-- What a module writes to declare a transition, and a whole definition.
abbrev pub raw_transition : Transition → RawTransition
raw_transition t =
    dict (text t.from_state) (text t.to_state) (items (map text t.gates))
      (items (map text t.required_capabilities))

abbrev pub as_proposal : Shape → Proposal
as_proposal s = record {
  states = some (map text s.states);
  initial_state = text s.initial_state;
  terminal_states = some (map text s.terminal_states);
  transitions = some (map raw_transition s.transitions);
}

texts-map : (xs : List ℕ) → texts (map text xs) ≡ some xs
unfolding texts
texts-map [] = refl
texts-map (x ∷ xs) = rw (texts-map xs)

names-map : (xs : List ℕ) → Named xs → names (map text xs) ≡ some xs
unfolding names
names-map [] n = refl
names-map (zero ∷ xs) n = absurd (n.0 refl)
names-map (suc x ∷ xs) n = rw (names-map xs n.1)

check_texts-map : (reason : Reason) (xs : List ℕ) → check_texts reason (items (map text xs)) ≡ ok xs
unfolding check_texts
check_texts-map reason xs = rw (texts-map xs)

check_states-map :
    (xs : List ℕ) (x : ℕ)
    → IsIn xs x
    → Named xs
    → has_duplicates xs ≡ false
    → check_states (some (map text xs)) ≡ ok xs
unfolding check_states
check_states-map [] x i n once = cc
check_states-map (y ∷ ys) x i n once = rw (names-map (y ∷ ys) n, once)

check_terminals-map :
    (states ts : List ℕ) → All (IsIn states) ts → check_terminals states (map text ts) ≡ ok ts
unfolding check_terminals check_member
check_terminals-map states [] i = refl
check_terminals-map states (t ∷ ts) i = rw (i.0, check_terminals-map states ts i.1)

check_raw_transition-raw :
    (idx : ℕ) (states terminals : List ℕ) (t : Transition)
    → Fits states terminals t
    → check_raw_transition idx states terminals (raw_transition t) ≡ ok t
unfolding check_raw_transition check_member
check_raw_transition-raw idx states terminals t f = rw (
  f.0,
  f.1,
  f.2,
  check_texts-map (Reason.gates_not_texts idx) t.gates,
  check_texts-map (Reason.capabilities_not_texts idx) t.required_capabilities,
)

check_transitions-map :
    (idx : ℕ) (states terminals : List ℕ) (ts : List Transition)
    → All (Fits states terminals) ts
    → check_transitions idx states terminals (map raw_transition ts) ≡ ok ts
unfolding check_transitions
check_transitions-map idx states terminals [] f = refl
check_transitions-map idx states terminals (t ∷ ts) f = rw (
  check_raw_transition-raw idx states terminals t f.0,
  check_transitions-map (idx + 1) states terminals ts f.1,
)

check_initial-text :
    (states : List ℕ) (x : ℕ) → IsIn states x → check_initial states (text x) ≡ ok x
unfolding check_initial
check_initial-text states x i = rw i

-- A well-formed definition, written out as a module declares it, passes the check and is stored
-- exactly as it was written.
pub validate_definition-as_proposal :
    (s : Shape) → WellFormed s → validate_definition (as_proposal s) ≡ ok s
unfolding validate_definition
validate_definition-as_proposal s w = rw (
  check_states-map s.states s.initial_state w.initial_in w.named w.distinct,
  check_initial-text s.states s.initial_state w.initial_in,
  check_terminals-map s.states s.terminal_states w.terminals_in,
  check_transitions-map 0 s.states s.terminal_states s.transitions w.transitions_fit,
)
