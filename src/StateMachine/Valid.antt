-- ===== src/StateMachine/Valid.antt =====
-- Which definitions pass the check of StateMachine/Registry.antt.
use legalise.Base.{
  ℕ, suc, ◌+◌, ◌≡◌, ◌≢◌, subst, ap, eq_of_some_eq, zero, refl, inl, inr, true, false, List, [], ◌∷◌,
  Option, none, some, member, if◌then◌else◌, All, Bool-cases, arith,
}
use legalise.StateMachine.Registry.{
  Value, text, RawTransition, dict, Transition, Shape, Checked, ok, invalid, type_error, ◌>>=◌,
  names, has_duplicates, check_states, check_member, check_initial, check_terminals, check_texts,
  check_raw_transition, check_transitions, Proposal, validate_definition, Reason,
  check_not_terminal, option_list, cons_option, check_names, duplicate_states,
}

-- The ends of a transition are states, and it leaves no terminal state.
abbrev pub Fits : List ℕ → List ℕ → Transition → Type 0
Fits states terminals t =
    (member t.from_state states ≡ true)
    × (member t.to_state states ≡ true)
    × (member t.from_state terminals ≡ false)

abbrev pub IsIn : List ℕ → ℕ → Type 0
IsIn states x = member x states ≡ true

pub record WellFormed (s : Shape) : Type 0 where
  pub distinct : has_duplicates s.states ≡ false
  pub named : All (λ x. x ≢ 0) s.states
  pub initial_in : IsIn s.states s.initial_state
  pub terminals_in : All (IsIn s.states) s.terminal_states
  pub transitions_fit : All (Fits s.states s.terminal_states) s.transitions

passed_of_ok :
    {A B : Type 0} {result : B} (stage : Checked A) (next : A → Checked B)
    → (stage >>= next) ≡ ok result
    → (found : A) × (stage ≡ ok found) × (next found ≡ ok result)
passed_of_ok (ok found) next returned = (found, refl, returned)
passed_of_ok type_error next returned = cc
passed_of_ok (invalid reason) next returned = cc

ok-injective : {A : Type 0} {a b : A} → ok a ≡ ok b → a ≡ b
ok-injective h = cc

check_member-IsIn :
    (reason : Reason) (states : List ℕ) (v : Value) {x : ℕ}
    → check_member reason states v ≡ ok x
    → IsIn states x
unfolding check_member
check_member-IsIn reason states (text t) h = ground arith
check_member-IsIn reason states Value.scalar h = cc
check_member-IsIn reason states Value.container h = cc

check_initial-IsIn :
    (states : List ℕ) (v : Value) {x : ℕ} → check_initial states v ≡ ok x → IsIn states x
unfolding check_initial
check_initial-IsIn states (text t) h = ground arith
check_initial-IsIn states Value.scalar h = cc
check_initial-IsIn states Value.container h = cc

check_not_terminal-free :
    (reason : Reason) (terminals : List ℕ) (x : ℕ) {u : Unit}
    → check_not_terminal reason terminals x ≡ ok u
    → member x terminals ≡ false
check_not_terminal-free reason terminals x h = ground arith

check_terminals-IsIn :
    (states : List ℕ) (vs : List Value) {ts : List ℕ}
    → check_terminals states vs ≡ ok ts
    → All (IsIn states) ts
unfolding check_terminals
check_terminals-IsIn states [] h = subst (All (IsIn states)) (ok-injective h) tt
check_terminals-IsIn states (v ∷ vs) h =
    let (t, first, h1) = passed_of_ok (check_member _ states v) _ h in
    let (ts, others, h2) = passed_of_ok (check_terminals states vs) _ h1 in
    subst (All (IsIn states)) (ok-injective h2)
      (check_member-IsIn _ states v first, check_terminals-IsIn states vs others)

check_raw_transition-Fits :
    (idx : ℕ) (states terminals : List ℕ) (raw : RawTransition) {t : Transition}
    → check_raw_transition idx states terminals raw ≡ ok t
    → Fits states terminals t
unfolding check_raw_transition
check_raw_transition-Fits idx states terminals RawTransition.not_dict h = cc
check_raw_transition-Fits idx states terminals (dict raw_from raw_to raw_gates raw_capabilities) h =
    let (from_state, in1, h1) = passed_of_ok (check_member _ states raw_from) _ h in
    let (to_state, in2, h2) = passed_of_ok (check_member _ states raw_to) _ h1 in
    let (_, free, h3) = passed_of_ok (check_not_terminal _ terminals from_state) _ h2 in
    let (gates, _, h4) = passed_of_ok (check_texts _ raw_gates) _ h3 in
    let (capabilities, _, h5) = passed_of_ok (check_texts _ raw_capabilities) _ h4 in
    subst (Fits states terminals) (ok-injective h5) (
      check_member-IsIn _ states raw_from in1,
      check_member-IsIn _ states raw_to in2,
      check_not_terminal-free _ terminals from_state free,
    )

check_transitions-Fits :
    (idx : ℕ) (states terminals : List ℕ) (raws : List RawTransition) {ts : List Transition}
    → check_transitions idx states terminals raws ≡ ok ts
    → All (Fits states terminals) ts
unfolding check_transitions
check_transitions-Fits idx states terminals [] h =
    subst (All (Fits states terminals)) (ok-injective h) tt
check_transitions-Fits idx states terminals (raw ∷ raws) h =
    let (t, first, h1) = passed_of_ok (check_raw_transition idx states terminals raw) _ h in
    let (ts, others, h2) = passed_of_ok (check_transitions (idx + 1) states terminals raws) _ h1 in
    subst (All (Fits states terminals)) (ok-injective h2) (
      check_raw_transition-Fits idx states terminals raw first,
      check_transitions-Fits (idx + 1) states terminals raws others,
    )

abbrev pub Named : List ℕ → Type 0
Named = All (λ x. x ≢ 0)

cons_option-some :
    {A : Type 0} (x : A) (o : Option (List A)) {ys : List A}
    → cons_option x o ≡ some ys
    → (xs : List A) × (o ≡ some xs) × ((x ∷ xs) ≡ ys)
cons_option-some x none h = cc
cons_option-some x (some xs) h = (xs, refl, cc)

names-Named : (vs : List Value) {ss : List ℕ} → names vs ≡ some ss → Named ss
unfolding names
names-Named [] h = subst Named (eq_of_some_eq h) tt
names-Named (text zero ∷ vs) h = cc
names-Named (text (suc t) ∷ vs) h =
    let (ss, others, same) = cons_option-some (suc t) (names vs) h in
    subst Named same (omega arith, names-Named vs others)
names-Named (Value.scalar ∷ vs) h = cc
names-Named (Value.container ∷ vs) h = cc

check_fresh :
    {ss ts : List ℕ}
    → (if has_duplicates ss then invalid duplicate_states else ok ss) ≡ ok ts
    → has_duplicates ss ≡ false
    → (some ss ≡ some ts) × (has_duplicates ts ≡ false)
check_fresh h once =
    let same = ok-injective (rw once at h) in
    (ap some same, subst (λ xs. has_duplicates xs ≡ false) same once)

check_names-distinct :
    (o : Option (List ℕ)) {ss : List ℕ}
    → check_names o ≡ ok ss
    → (o ≡ some ss) × (has_duplicates ss ≡ false)
check_names-distinct none h = cc
check_names-distinct (some ss) h = elim (Bool-cases (has_duplicates ss)) [
  | inl twice ↦ cc
  | inr once ↦ check_fresh h once
]

check_states-distinct :
    (o : Option (List Value)) {ss : List ℕ}
    → check_states o ≡ ok ss
    → Named ss × (has_duplicates ss ≡ false)
unfolding check_states
check_states-distinct none h = cc
check_states-distinct (some []) h = cc
check_states-distinct (some (v ∷ vs)) h =
    let (named, once) = check_names-distinct (names (v ∷ vs)) h in
    (names-Named (v ∷ vs) named, once)

-- A definition that passes the check is well formed: its states are distinct and not empty, its
-- initial and its terminal states and the ends of its transitions are among them, and no transition
-- leaves a terminal state.
pub validate_definition-WellFormed :
    (p : Proposal) {s : Shape} → validate_definition p ≡ ok s → WellFormed s
unfolding validate_definition
validate_definition-WellFormed p h =
    let (states, h1, k1) = passed_of_ok (check_states p.states) _ h in
    let (initial, h2, k2) = passed_of_ok (check_initial states p.initial_state) _ k1 in
    let (raw_terminals, h3, k3) = passed_of_ok (option_list _ p.terminal_states) _ k2 in
    let (terminals, h4, k4) = passed_of_ok (check_terminals states raw_terminals) _ k3 in
    let (raws, h5, k5) = passed_of_ok (option_list _ p.transitions) _ k4 in
    let (transitions, h6, k6) = passed_of_ok (check_transitions 0 states terminals raws) _ k5 in
    let (named, once) = check_states-distinct p.states h1 in
    subst WellFormed (ok-injective k6) (record {
      distinct = once;
      named = named;
      initial_in = check_initial-IsIn states p.initial_state h2;
      terminals_in = check_terminals-IsIn states raw_terminals h4;
      transitions_fit = check_transitions-Fits 0 states terminals raws h6;
    })
