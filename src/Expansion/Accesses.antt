-- ===== src/Expansion/Accesses.antt =====
-- The strictest model access of a snapshot of Expansion.antt.
use legalise.Base.{
  ℕ, ◌≤◌, ◌≡◌, refl, sym, subst, ◌⊎◌, inl, inr, List, [], ◌∷◌, ltb, arith, All, Bool-cases,
}
use legalise.Expansion.{
  ModelAccess, CapabilitySnapshot, Snapshot, model_access_order, max_access, max_model_access,
}
use legalise.Expansion.Declared.{Some, Some-mono}

-- The accesses from the laxest to the strictest.
abbrev pub strictness : ModelAccess → ℕ
strictness ModelAccess.none_access = 0
strictness ModelAccess.optional = 1
strictness ModelAccess.delegated = 2
strictness ModelAccess.required = 3
strictness (ModelAccess.other n) = 0

model_access_order-strictness : (a : ModelAccess) → model_access_order a ≡ strictness a
unfolding model_access_order
model_access_order-strictness ModelAccess.none_access = refl
model_access_order-strictness ModelAccess.optional = refl
model_access_order-strictness ModelAccess.delegated = refl
model_access_order-strictness ModelAccess.required = refl
model_access_order-strictness (ModelAccess.other n) = refl

-- How the strictest of a first access and the later ones stands to them.
abbrev IsStrictest : ModelAccess → List CapabilitySnapshot → ℕ → Type 0
IsStrictest best cs top =
    (strictness best ≤ top)
    × All (λ c. strictness c.model_access ≤ top) cs
    × ((top ≤ strictness best) ⊎ Some (λ c. top ≤ strictness c.model_access) cs)

max_access-IsStrictest :
    (best : ModelAccess) (cs : List CapabilitySnapshot)
    → IsStrictest best cs (strictness (max_access best cs))
unfolding max_access
max_access-IsStrictest best [] = (omega arith, tt, inl (omega arith))
max_access-IsStrictest best (c ∷ cs) =
    let m = model_access_order-strictness best in
    let n = model_access_order-strictness c.model_access in
    elim (Bool-cases (ltb (model_access_order best) (model_access_order c.model_access))) [
      | inl stricter ↦
          let (above, others, from) = max_access-IsStrictest c.model_access cs in
          let is : max_access best (c ∷ cs) ≡ max_access c.model_access cs = rw (stricter) refl in
          subst (λ x. IsStrictest best (c ∷ cs) (strictness x)) (sym is)
            (ground (arith, m, n, stricter, above), (above, others), inr from)
      | inr laxer ↦
          let (above, others, from) = max_access-IsStrictest best cs in
          let is : max_access best (c ∷ cs) ≡ max_access best cs = rw (laxer) refl in
          subst (λ x. IsStrictest best (c ∷ cs) (strictness x)) (sym is)
            (
              above,
              (ground (arith, m, n, laxer, above), others),
              elim from [ inl own ↦ inl own | inr later ↦ inr (inr later) ],
            )
    ]

abbrev strictest : List CapabilitySnapshot → ModelAccess
strictest cs = elim cs [ [] ↦ ModelAccess.none_access | c ∷ more ↦ max_access c.model_access more ]

strictest-above :
    (cs : List CapabilitySnapshot)
    → All (λ c. strictness c.model_access ≤ strictness (strictest cs)) cs
strictest-above [] = tt
strictest-above (c ∷ cs) =
    let (above, others, _) = max_access-IsStrictest c.model_access cs in (above, others)

strictest-among :
    (cs : List CapabilitySnapshot)
    → (strictness (strictest cs) ≡ 0)
      ⊎ Some (λ c. strictness (strictest cs) ≤ strictness c.model_access) cs
strictest-among [] = inl refl
strictest-among (c ∷ cs) = let (_, _, from) = max_access-IsStrictest c.model_access cs in inr from

-- The capability's access is the laxest, or no stricter than that of some capability.
abbrev pub Accessed : List CapabilitySnapshot → CapabilitySnapshot → Type 0
Accessed old c =
    (strictness c.model_access ≡ 0)
    ⊎ Some (λ d. strictness c.model_access ≤ strictness d.model_access) old

strictness-Accessed :
    (old : List CapabilitySnapshot) (c : CapabilitySnapshot)
    → strictness c.model_access ≤ strictness (strictest old)
    → Accessed old c
strictness-Accessed old c under = elim (strictest-among old) [
  | inl none_asked ↦ inl (ground (arith, none_asked, under))
  | inr asked ↦ inr (
      Some-mono (λ d. strictness (strictest old) ≤ strictness d.model_access)
        (λ d. strictness c.model_access ≤ strictness d.model_access) old
        (λ d h. ground (arith, under, h)) asked)
]

All-Accessed :
    (old : List CapabilitySnapshot) (top : ℕ) (cs : List CapabilitySnapshot)
    → top ≤ strictness (strictest old)
    → All (λ c. strictness c.model_access ≤ top) cs
    → All (Accessed old) cs
All-Accessed old top [] le h = tt
All-Accessed old top (c ∷ cs) le h =
    (strictness-Accessed old c (ground (arith, le, h.0)), All-Accessed old top cs le h.1)

-- Where the strictest access is no stricter than before, no capability's is.
pub model_access_order-Accessed :
    (old new : Snapshot)
    → model_access_order (max_model_access new) ≤ model_access_order (max_model_access old)
    → All (Accessed old.capabilities) new.capabilities
unfolding max_model_access
model_access_order-Accessed old new le =
    All-Accessed old.capabilities (strictness (strictest new.capabilities)) new.capabilities
      (ground (
        arith,
        le,
        model_access_order-strictness (max_model_access new),
        model_access_order-strictness (max_model_access old),
      ))
      (strictest-above new.capabilities)
