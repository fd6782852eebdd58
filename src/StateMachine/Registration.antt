-- ===== src/StateMachine/Registration.antt =====
-- A registration keeps the tables of StateMachine/History.antt consistent.
use legalise.Base.{
  ℕ, ◌≡◌, refl, sym, subst, ◌∙◌, eq_of_some_eq, ◌⊎◌, inl, inr, Bool, List, ◌∷◌, Option, none, some,
  ◌==◌, ==_iff, ==_refl, Bool-cases, Option-cases, some-none,
}
use legalise.StateMachine.Registry.{
  Shape, Definition, Proposal, Checked, ok, by_id, by_key, find_definition, register_definition,
  register_shape, return_or_insert, validate_definition,
}
use legalise.StateMachine.Valid.{WellFormed, validate_definition-WellFormed}
use legalise.StateMachine.Runtime.{Instance, Row, Store}
use legalise.StateMachine.History.{register, step, Inv, Consistent}

module _ (d : Definition) (ds : List Definition)
    (free : find_definition (by_id d.id) ds ≡ none) where
  find_definition-cons :
      (test : Definition → Bool) (e : Definition)
      → find_definition test (d ∷ ds) ≡ some e
      → (d ≡ e) ⊎ (find_definition test ds ≡ some e)
  unfolding find_definition
  find_definition-cons test e h = elim (Bool-cases (test d)) [
    | inl hit ↦ inl (eq_of_some_eq (rw (hit) at h))
    | inr miss ↦ inr (rw (miss) at h)
  ]

  -- A definition that was found is found behind a new one.
  find_definition-behind :
      (id : ℕ) (e : Definition)
      → find_definition (by_id id) ds ≡ some e
      → find_definition (by_id id) (d ∷ ds) ≡ some e
  unfolding find_definition
  find_definition-behind id e h = elim (Bool-cases (d.id == id)) [
    | inl same ↦ absurd (
        some-none
          (sym h ∙ subst (λ n. find_definition (by_id n) ds ≡ none) ((==_iff d.id id).0 same) free))
    | inr apart ↦ rw (apart) h
  ]

  insert-well :
      {is : List Instance} {rows : List Row}
      → Inv ds is rows
      → WellFormed d.shape
      → Inv (d ∷ ds) is rows
  unfolding find_definition
  insert-well inv fit = record {
    well = λ test e h. elim (find_definition-cons test e h) [
      | inl same ↦ subst (λ x. WellFormed x.shape) same fit
      | inr k ↦ inv.well test e k
    ];
    unique = λ test e h. elim (find_definition-cons test e h) [
      | inl same ↦
          subst (λ x. find_definition (by_id x.id) (d ∷ ds) ≡ some x) same (rw (==_refl d.id))
      | inr k ↦ find_definition-behind e.id e (inv.unique test e k)
    ];
    known =
        λ id i h. let (e, k) = inv.known id i h in (e, find_definition-behind i.definition_id e k);
    fresh = inv.fresh;
    replayed = λ id i e h k.
        let (e', k') = inv.known id i h in
        inv.replayed id i e h (k' ∙ sym (find_definition-behind i.definition_id e' k') ∙ k);
  }

return_or_insert-Inv :
    {ds : List Definition} {is : List Instance} {rows : List Row} (o : Option Definition)
    (d : Definition)
    → Inv ds is rows
    → WellFormed d.shape
    → Inv (return_or_insert o d ds).1 is rows
return_or_insert-Inv (some existing) d inv fit = inv
return_or_insert-Inv {ds = ds} none d inv fit =
    elim (Option-cases (find_definition (by_id d.id) ds)) [
      | inl free ↦ rw (free) (insert-well d ds free inv fit)
      | inr (e, taken) ↦ rw (taken) inv
    ]

register_shape-Inv :
    {ds : List Definition} {is : List Instance} {rows : List Row}
    (id module_id definition_key version : ℕ) (checked : Checked Shape)
    → ((shape : Shape) → checked ≡ ok shape → WellFormed shape)
    → Inv ds is rows
    → Inv (register_shape id module_id definition_key version checked ds).1 is rows
register_shape-Inv id module_id definition_key version (Checked.invalid reason) fit inv = inv
register_shape-Inv id module_id definition_key version Checked.type_error fit inv = inv
register_shape-Inv {ds = ds} id module_id definition_key version (ok shape) fit inv =
    return_or_insert-Inv (find_definition (by_key module_id definition_key version) ds) _ inv
      (fit shape refl)

pub register-Consistent :
    (id module_id definition_key version : ℕ) (p : Proposal) (s : Store)
    → Consistent s
    → Consistent (step (register id module_id definition_key version p) s)
unfolding step register_definition
register-Consistent id module_id definition_key version p s inv =
    register_shape-Inv id module_id definition_key version (validate_definition p)
      (λ shape h. validate_definition-WellFormed p h) inv
