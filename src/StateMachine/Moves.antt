-- ===== src/StateMachine/Moves.antt =====
-- Creating an instance and requesting a transition keep the tables of StateMachine/History.antt
-- consistent.
use legalise.Base.{
  ℕ, ◌≡◌, refl, sym, ap, subst, ◌∙◌, eq_of_some_eq, ◌⊎◌, inl, inr, Bool, false, ◌&&◌, List, [], ◌∷◌,
  Option, none, some, ◌==◌, ==_iff, ==_refl, Bool-cases, Option-cases, arith, some-none,
}
use legalise.StateMachine.Registry.{
  Transition, Shape, Definition, Reference, of_id, of_key, by_id, by_key, find_definition,
  load_definition, or_not_found, is_given, value_error, loaded, Loaded, find_transition,
}
use legalise.StateMachine.Runtime.{
  Instance, Status, completed, Row, Store, Request, find_instance, create_instance, Outcome,
  create_from, move_instance,
}
use legalise.StateMachine.Requests.{status_of, Handled, completes, request_transition-Handled}
use legalise.StateMachine.Registration.{register-Consistent}
use legalise.StateMachine.History.{
  replay, Call, register, create, request, regrant, step, run, Inv, Consistent, is_completed,
  id_of_find_instance, moved_option, find_instance-move_same, find_instance-move_apart,
}

error-loaded : {d : Definition} → ¬ (value_error ≡ loaded d)
error-loaded h = cc

stored_of_loaded : (o : Option Definition) {d : Definition} → or_not_found o ≡ loaded d → o ≡ some d
stored_of_loaded none h = cc
stored_of_loaded (some e) h = cc

-- A definition that a reference loads is stored.
loaded_is_stored :
    (reference : Reference) (ds : List Definition) {d : Definition}
    → load_definition reference ds ≡ loaded d
    → (test : Definition → Bool) × (find_definition test ds ≡ some d)
unfolding load_definition
loaded_is_stored (of_id id) ds h = (by_id id, stored_of_loaded (find_definition (by_id id) ds) h)
loaded_is_stored (of_key (some a) (some b) (some c)) ds {d = d} h =
    elim (Bool-cases (is_given (some a) && is_given (some b) && is_given (some c))) [
      | inl given ↦
          (by_key a b c, stored_of_loaded (find_definition (by_key a b c) ds) (rw (given) at h))
      | inr missing ↦
          let h' : value_error ≡ loaded d = rw (missing) at h in absurd (error-loaded h')
    ]
loaded_is_stored (of_key _ _ _) ds h = cc

replay-quiet :
    (shape : Shape) (id : ℕ) (row : Row) (rows : List Row)
    → is_completed row.status ≡ false
    → replay shape id (row ∷ rows) ≡ replay shape id rows
unfolding replay
replay-quiet shape id row rows quiet = ground (arith, quiet)

module _ {ds : List Definition} {is : List Instance} {rows : List Row} (inv : Inv ds is rows) where
  module _ (i : Instance) (d : Definition) (stored : find_definition (by_id d.id) ds ≡ some d)
      (of_definition : i.definition_id ≡ d.id) (at_start : i.current_state ≡ d.shape.initial_state)
      (free : find_instance i.id is ≡ none) where
    find_instance-cons :
        (id : ℕ) (j : Instance)
        → find_instance id (i ∷ is) ≡ some j
        → ((i ≡ j) × (i.id ≡ id)) ⊎ (find_instance id is ≡ some j)
    unfolding find_instance
    find_instance-cons id j h = elim (Bool-cases (i.id == id)) [
      | inl hit ↦ inl (eq_of_some_eq (rw (hit) at h), (==_iff i.id id).0 hit)
      | inr miss ↦ inr (rw (miss) at h)
    ]

    find_instance-free : (id : ℕ) → find_instance id (i ∷ is) ≡ none → find_instance id is ≡ none
    unfolding find_instance
    find_instance-free id h = ground arith

    start_replays :
        (id : ℕ) (j : Instance) (e : Definition)
        → i ≡ j
        → i.id ≡ id
        → find_definition (by_id j.definition_id) ds ≡ some e
        → replay e.shape id rows ≡ some j.current_state
    start_replays id j e same at_id k =
        let k' =
          subst (λ n. find_definition (by_id n) ds ≡ some e) of_definition
            (subst (λ q. find_definition (by_id q.definition_id) ds ≡ some e) (sym same) k) in
        let its : d ≡ e = eq_of_some_eq (sym stored ∙ k') in
        inv.fresh id e.shape (subst (λ n. find_instance n is ≡ none) at_id free)
        ∙ ap (λ x. some x.shape.initial_state) (sym its)
        ∙ ap some (sym at_start)
        ∙ ap (λ x. some x.current_state) same

    insert_instance-Inv : Inv ds (i ∷ is) rows
    insert_instance-Inv = record {
      well = inv.well;
      unique = inv.unique;
      known = λ id j h. elim (find_instance-cons id j h) [
        | inl (same, at_id) ↦ (
          d,
          subst (λ k. find_definition (by_id k.definition_id) ds ≡ some d) same
              (rw (of_definition) stored),
        )
        | inr k ↦ inv.known id j k
      ];
      fresh = λ id shape h. inv.fresh id shape (find_instance-free id h);
      replayed = λ id j e h k. elim (find_instance-cons id j h) [
        | inl (same, at_id) ↦ start_replays id j e same at_id k
        | inr k' ↦ inv.replayed id j e k' k
      ];
    }

  -- A row that is not completed leaves the replay of every instance as it was.
  append-Inv : (row : Row) → is_completed row.status ≡ false → Inv ds is (row ∷ rows)
  append-Inv row quiet = record {
    well = inv.well;
    unique = inv.unique;
    known = inv.known;
    fresh = λ id shape h. replay-quiet shape id row rows quiet ∙ inv.fresh id shape h;
    replayed = λ id j d h k. replay-quiet d.shape id row rows quiet ∙ inv.replayed id j d h k;
  }

  module _ (id to_state : ℕ) (i : Instance) (row : Row) (d : Definition) (t : Transition)
      (found : find_instance id is ≡ some i)
      (stored : find_definition (by_id i.definition_id) ds ≡ some d)
      (declared : find_transition i.current_state to_state d.shape.transitions ≡ some t)
      (owned : row.instance_id ≡ i.id) (leaves : row.from_state ≡ i.current_state)
      (enters : row.to_state ≡ to_state) (finished : row.status ≡ completed) where
    found_own : find_instance i.id is ≡ some i
    found_own =
        subst (λ n. find_instance n is ≡ some i) (sym (id_of_find_instance id is found)) found

    find_instance-move_found :
        (k : ℕ) (j : Instance)
        → find_instance k (move_instance i.id to_state is) ≡ some j
        → ((record i { current_state = to_state } ≡ j) × (i.id ≡ k))
          ⊎ (((i.id == k) ≡ false) × (find_instance k is ≡ some j))
    find_instance-move_found k j h = elim (Bool-cases (i.id == k)) [
      | inl same ↦
          let same_id = (==_iff i.id k).0 same in
          let h' : find_instance i.id (move_instance i.id to_state is) ≡ some j =
            subst (λ n. find_instance n (move_instance i.id to_state is) ≡ some j) (sym same_id)
              h in
          inl (
            eq_of_some_eq (
                ap (moved_option to_state) (sym found_own)
                ∙ sym (find_instance-move_same i.id to_state is)
                ∙ h'),
            same_id,
          )
      | inr apart ↦ inr (apart, sym (find_instance-move_apart k i.id to_state is apart) ∙ h)
    ]

    find_instance-move_free :
        (k : ℕ)
        → find_instance k (move_instance i.id to_state is) ≡ none
        → ((i.id == k) ≡ false) × (find_instance k is ≡ none)
    find_instance-move_free k h = elim (Bool-cases (i.id == k)) [
      | inl same ↦ absurd (
          some-none (
            ap (moved_option to_state) (sym found_own)
            ∙ sym (find_instance-move_same i.id to_state is)
            ∙ subst (λ n. find_instance n (move_instance i.id to_state is) ≡ none)
                (sym ((==_iff i.id k).0 same)) h))
      | inr apart ↦ (apart, sym (find_instance-move_apart k i.id to_state is apart) ∙ h)
    ]

    replay-apart :
        (k : ℕ) (shape : Shape)
        → (i.id == k) ≡ false
        → replay shape k (row ∷ rows) ≡ replay shape k rows
    unfolding replay
    replay-apart k shape apart = rw (owned, apart)

    replay-moved : replay d.shape i.id (row ∷ rows) ≡ some to_state
    unfolding replay
    replay-moved = rw (
      owned,
      ==_refl i.id,
      finished,
      inv.replayed i.id i d found_own stored,
      leaves,
      ==_refl i.current_state,
      enters,
      declared,
    )

    moved_replays :
        (k : ℕ) (j : Instance) (e : Definition)
        → record i { current_state = to_state } ≡ j
        → i.id ≡ k
        → find_definition (by_id j.definition_id) ds ≡ some e
        → replay e.shape k (row ∷ rows) ≡ some j.current_state
    moved_replays k j e same at_id l =
        let l' = subst (λ q. find_definition (by_id q.definition_id) ds ≡ some e) (sym same) l in
        let its : d ≡ e = eq_of_some_eq (sym stored ∙ l') in
        subst (λ x. replay x.shape k (row ∷ rows) ≡ some j.current_state) its
          (subst (λ n. replay d.shape n (row ∷ rows) ≡ some j.current_state) at_id
            (replay-moved ∙ ap (λ x. some x.current_state) same))

    move-Inv : Inv ds (move_instance i.id to_state is) (row ∷ rows)
    move-Inv = record {
      well = inv.well;
      unique = inv.unique;
      known = λ k j h. elim (find_instance-move_found k j h) [
        | inl (same, at_id) ↦
            (d, subst (λ q. find_definition (by_id q.definition_id) ds ≡ some d) same stored)
        | inr (apart, h') ↦ inv.known k j h'
      ];
      fresh = λ k shape h.
          let (apart, h') = find_instance-move_free k h in
          replay-apart k shape apart ∙ inv.fresh k shape h';
      replayed = λ k j e h l. elim (find_instance-move_found k j h) [
        | inl (same, at_id) ↦ moved_replays k j e same at_id l
        | inr (apart, h') ↦ replay-apart k e.shape apart ∙ inv.replayed k j e h' l
      ];
    }

create_from-Consistent :
    (id owner_scope owner_id : ℕ) (actor_id : Option ℕ) (l : Loaded) (s : Store)
    → ((d : Definition) → l ≡ loaded d → find_definition (by_id d.id) s.definitions ≡ some d)
    → Consistent s
    → Consistent (create_from id owner_scope owner_id actor_id l s).1
create_from-Consistent id owner_scope owner_id actor_id Loaded.definition_not_found s stored inv =
    inv
create_from-Consistent id owner_scope owner_id actor_id Loaded.value_error s stored inv = inv
create_from-Consistent id owner_scope owner_id actor_id (loaded d) s stored inv =
    elim (Option-cases (find_instance id s.instances)) [
      | inl free ↦ rw (free) (insert_instance-Inv inv _ d (stored d refl) refl refl free)
      | inr (j, taken) ↦ rw (taken) inv
    ]

pub create-Consistent :
    (id : ℕ) (reference : Reference) (owner_scope owner_id : ℕ) (actor_id : Option ℕ) (s : Store)
    → Consistent s
    → Consistent (step (create id reference owner_scope owner_id actor_id) s)
unfolding step create_instance
create-Consistent id reference owner_scope owner_id actor_id s inv =
    create_from-Consistent id owner_scope owner_id actor_id
      (load_definition reference s.definitions) s
      (λ d h. let (test, k) = loaded_is_stored reference s.definitions h in inv.unique test d k) inv

not_completed :
    (o : Outcome) (status : Status)
    → completes o ≡ false
    → status_of o ≡ some status
    → is_completed status ≡ false
not_completed (Outcome.done _ _) status h k = cc
not_completed (Outcome.phase1_blocked _) status h k = ap is_completed (sym (eq_of_some_eq k))
not_completed (Outcome.phase1_failed _) status h k = ap is_completed (sym (eq_of_some_eq k))
not_completed Outcome.instance_not_found status h k = cc

Handled-Consistent :
    {s : Store} {r : Request} {o : Outcome} {s' : Store}
    → Handled s r o s'
    → Consistent s
    → Consistent s'
Handled-Consistent (Handled.missing h e same) inv = subst Consistent (sym same) inv
Handled-Consistent {o = o} (Handled.refused i row found (owned, leaves, enters) q st ds is rows)
      inv =
    rw (ds, is, rows) (append-Inv inv row (not_completed o row.status q st))
Handled-Consistent {r = r}
      (Handled.moved i row d t found stored declared (owned, leaves, enters) finished q ds is rows)
      inv =
    rw (ds, is, rows)
      (move-Inv inv r.instance_id r.to_state i row d t found stored declared owned leaves enters
        finished)

pub step-Consistent : (c : Call) (s : Store) → Consistent s → Consistent (step c s)
unfolding step
step-Consistent (register id module_id definition_key version p) s inv =
    register-Consistent id module_id definition_key version p s inv
step-Consistent (create id reference owner_scope owner_id actor_id) s inv =
    create-Consistent id reference owner_scope owner_id actor_id s inv
step-Consistent (request handlers row_id r) s inv =
    Handled-Consistent (request_transition-Handled handlers row_id r s) inv
step-Consistent (regrant db) s inv = inv

pub run-Consistent : (calls : List Call) (s : Store) → Consistent s → Consistent (run calls s)
unfolding run
run-Consistent [] s inv = inv
run-Consistent (c ∷ cs) s inv = run-Consistent cs (step c s) (step-Consistent c s inv)
