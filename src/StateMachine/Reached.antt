-- ===== src/StateMachine/Reached.antt =====
-- What holds of the state machine primitive after any calls, from empty tables.
use legalise.Base.{
  ℕ, ◌≡◌, refl, sym, true, false, List, [], ◌∷◌, none, some, ◌==◌, ==_iff, inl, inr, All,
  Bool-cases, true-false, member, subst, ◌∙◌,
}
use legalise.Capabilities.{Database}
use legalise.StateMachine.Registry.{
  Transition, Definition, by_id, find_definition, load_definition, find_transition,
}
use legalise.StateMachine.Valid.{Fits}
use legalise.StateMachine.Runtime.{
  Instance, Request, Handlers, invalid_transition, phase1_blocked, find_instance,
  request_transition,
}
use legalise.StateMachine.History.{
  replay, Call, run, empty_store, Consistent, empty_store-Consistent,
}
use legalise.StateMachine.Moves.{run-Consistent}

run-empty_store-Consistent :
    (calls : List Call) (db : Database) → Consistent (run calls (empty_store db))
run-empty_store-Consistent calls db =
    run-Consistent calls (empty_store db) (empty_store-Consistent db)

-- After any calls in any order, the current state of an instance is the state that its completed
-- rows lead to, each from the state that the one before it entered and along a transition that its
-- definition declares, from the definition's initial state.
pub run-replays :
    (calls : List Call) (db : Database) (id : ℕ) (i : Instance) (d : Definition)
    → find_instance id (run calls (empty_store db)).instances ≡ some i
    → find_definition (by_id i.definition_id) (run calls (empty_store db)).definitions ≡ some d
    → replay d.shape id (run calls (empty_store db)).rows ≡ some i.current_state
run-replays calls db id i d found stored =
    (run-empty_store-Consistent calls db).replayed id i d found stored

find_transition-terminal :
    (states terminals : List ℕ) (from_state to_state : ℕ) (ts : List Transition)
    → All (Fits states terminals) ts
    → member from_state terminals ≡ true
    → find_transition from_state to_state ts ≡ none
unfolding find_transition
find_transition-terminal states terminals from_state to_state [] fit final = refl
find_transition-terminal states terminals from_state to_state (t ∷ ts) fit final =
    elim (Bool-cases (t.from_state == from_state)) [
      | inl same ↦ absurd (
          true-false (
            sym final
            ∙ subst (λ x. member x terminals ≡ false) ((==_iff t.from_state from_state).0 same)
                fit.0.2))
      | inr apart ↦
          rw (apart) (find_transition-terminal states terminals from_state to_state ts fit.1 final)
    ]

-- After any calls, a request on an instance in a terminal state of its definition is blocked as an
-- invalid transition, whatever the user holds and the gates say, and no instance changes.
pub request_terminal :
    (calls : List Call) (db : Database) (handlers : Handlers) (row_id : ℕ) (r : Request)
    (i : Instance) (d : Definition)
    → find_instance r.instance_id (run calls (empty_store db)).instances ≡ some i
    → find_definition (by_id i.definition_id) (run calls (empty_store db)).definitions ≡ some d
    → member i.current_state d.shape.terminal_states ≡ true
    → let result = request_transition handlers row_id r (run calls (empty_store db)) in
      (result.0 ≡ phase1_blocked (invalid_transition i.current_state r.to_state d.id))
      × (result.1.instances ≡ (run calls (empty_store db)).instances)
unfolding request_transition load_definition
request_terminal calls db handlers row_id r i d found stored final =
    let fit = (run-empty_store-Consistent calls db).well (by_id i.definition_id) d stored in
    let stuck =
      find_transition-terminal d.shape.states d.shape.terminal_states i.current_state r.to_state
        d.shape.transitions fit.transitions_fit final in
    (rw (found, stored, stuck), rw (found, stored, stuck))
