-- ===== src/StateMachine/Routes.antt =====
-- How far an instance of StateMachine/Runtime.antt can be driven.
use legalise.Base.{ℕ, ◌+◌, ◌≡◌, sym, ap, subst, ◌∙◌, true, List, [], ◌∷◌, Option, none, some, All}
use legalise.Capabilities.{Database}
use legalise.StateMachine.Registry.{Transition, Definition, by_id, find_definition, find_transition}
use legalise.StateMachine.Runtime.{
  Instance, Store, Request, Handler, Handlers, find_instance, move_instance, complete, ask,
}
use legalise.StateMachine.Permits.{lets_pass, HoldsAll, Permitted, request_of_Permitted}
use legalise.StateMachine.History.{
  Call, request, step, run, id_of_find_instance, moved_option, find_instance-move_same,
}

-- A handler that returns whatever it is given.
abbrev pub AlwaysReturns : Option Handler → Type 0
AlwaysReturns none = ⊥
AlwaysReturns (some handler) =
    (s : Store) (i : Instance) (t : Transition) (r : Request)
    → lets_pass (some (handler s i t r)) ≡ true

-- A walk along declared transitions, for which the user holds what they require and whose gates
-- return.
pub data Route (handlers : Handlers) (user_id : Option ℕ) (db : Database) (ts : List Transition)
    : ℕ → List ℕ → ℕ → Type 0 where
  arrived : {a : ℕ} → Route handlers user_id db ts a [] a
  via :
      {a b c : ℕ} {xs : List ℕ} (t : Transition)
      → find_transition a b ts ≡ some t
      → HoldsAll user_id t.required_capabilities db
      → All (λ g. AlwaysReturns (handlers g)) t.gates
      → Route handlers user_id db ts b xs c
      → Route handlers user_id db ts a (b ∷ xs) c

-- One request for each state in turn.
unfoldable pub requests : Handlers → ℕ → Request → List ℕ → List Call
requests handlers row_id r [] = []
requests handlers row_id r (x ∷ xs) =
    request handlers row_id (record r { to_state = x }) ∷ requests handlers (row_id + 1) r xs

lets_pass_of_AlwaysReturns :
    (o : Option Handler) (s : Store) (i : Instance) (t : Transition) (r : Request)
    → AlwaysReturns o
    → lets_pass (ask o s i t r) ≡ true
lets_pass_of_AlwaysReturns none s i t r h = absurd h
lets_pass_of_AlwaysReturns (some handler) s i t r h = h s i t r

All-lets_pass :
    (handlers : Handlers) (gates : List ℕ) (s : Store) (i : Instance) (t : Transition) (r : Request)
    → All (λ g. AlwaysReturns (handlers g)) gates
    → All (λ g. lets_pass (ask (handlers g) s i t r) ≡ true) gates
All-lets_pass handlers [] s i t r h = tt
All-lets_pass handlers (g ∷ gs) s i t r h =
    (lets_pass_of_AlwaysReturns (handlers g) s i t r h.0, All-lets_pass handlers gs s i t r h.1)

-- An instance can be driven along every walk of declared transitions that its user may take: with
-- one request for each state of the walk it ends in the last of them, and is otherwise as it was.
-- The gates of those transitions must return, and the user must hold what they require.
pub run-requests :
    (handlers : Handlers) (row_id : ℕ) (r : Request) (xs : List ℕ) (s : Store) (i : Instance)
    (d : Definition) (target : ℕ)
    → find_instance r.instance_id s.instances ≡ some i
    → find_definition (by_id i.definition_id) s.definitions ≡ some d
    → Route handlers r.user_id s.database d.shape.transitions i.current_state xs target
    → find_instance r.instance_id (run (requests handlers row_id r xs) s).instances
      ≡ some (record i { current_state = target })
unfolding run requests step complete
run-requests handlers row_id r [] s i d target found stored (Route.arrived) = found
run-requests handlers row_id r (x ∷ xs) s i d target found stored
      (Route.via t declared held returns rest) =
    let r' = record r { to_state = x } in
    let permitted : Permitted handlers r' s = record {
      subject_of = i;
      definition = d;
      transition = t;
      found = found;
      stored = stored;
      declared = declared;
      held = held;
      gated = All-lets_pass handlers t.gates s i t r' returns;
    } in
    let (given, same) = request_of_Permitted handlers row_id r' s permitted in
    let moved = record i { current_state = x } in
    let found' : find_instance r.instance_id (move_instance i.id x s.instances) ≡ some moved =
      subst (λ n. find_instance r.instance_id (move_instance n x s.instances) ≡ some moved)
        (sym (id_of_find_instance r.instance_id s.instances found))
        (find_instance-move_same r.instance_id x s.instances ∙ ap (moved_option x) found) in
    subst
      (λ q.
        find_instance r.instance_id (run (requests handlers (row_id + 1) r xs) q.1).instances
        ≡ some (record i { current_state = target }))
      (sym same)
      (run-requests handlers (row_id + 1) r xs (complete row_id i r' given s).1 moved d target
        found' stored rest)
