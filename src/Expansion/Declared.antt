-- ===== src/Expansion/Declared.antt =====
-- What a snapshot of Expansion.antt declares, at the top and in each capability, and how the sets and
-- maxima of the comparison stand to it.
use Prim.Native.String.{String}
use legalise.Base.{
  ◌≡◌, refl, sym, ◌∙◌, ◌⊎◌, inl, inr, true, ◌||◌, List, [], ◌∷◌, ◌++◌, arith, All, Bool-cases,
}
use legalise.TrustCeremony.Card.{member}
use legalise.Expansion.{CapabilitySnapshot, flatten, any_external_network}

-- Some element satisfies the predicate.
abbrev pub Some {ℓ} : {A : Type ℓ} → (A → Type 0) → List A → Type 0
Some P [] = ⊥
Some P (x ∷ xs) = P x ⊎ Some P xs

pub Some-mono :
    {A : Type 0} (P Q : A → Type 0) (xs : List A) → ((x : A) → P x → Q x) → Some P xs → Some Q xs
Some-mono P Q [] f h = absurd h
Some-mono P Q (x ∷ xs) f (inl h) = inl (f x h)
Some-mono P Q (x ∷ xs) f (inr h) = inr (Some-mono P Q xs f h)

pub All-Some :
    {A : Type 0} (P Q : A → Type 0) (R : Type 0) (xs : List A)
    → ((x : A) → P x → Q x → R)
    → All P xs
    → Some Q xs
    → R
All-Some P Q R [] f h k = absurd k
All-Some P Q R (x ∷ xs) f h (inl k) = f x h.0 k
All-Some P Q R (x ∷ xs) f h (inr k) = All-Some P Q R xs f h.1 k

-- Some capability declares the text in the field.
abbrev pub Declares : (CapabilitySnapshot → List String) → List CapabilitySnapshot → String → Type 0
Declares field cs x = Some (λ c. member x (field c) ≡ true) cs

member-append : (x : String) (a b : List String) → member x (a ++ b) ≡ (member x a || member x b)
member-append x [] b = refl
member-append x (y ∷ a) b = ground (arith, member-append x a b)

-- A text stands in a list that is joined from a top and the capabilities' lists.
pub member-Declares :
    (field : CapabilitySnapshot → List String) (cs : List CapabilitySnapshot) (x : String)
    → member x (flatten field cs) ≡ true
    → Declares field cs x
unfolding flatten
member-Declares field [] x h = cc
member-Declares field (c ∷ cs) x h = elim (Bool-cases (member x (field c))) [
  | inl here ↦ inl here
  | inr elsewhere ↦ inr (
      member-Declares field cs x
        (rw (elsewhere) at (sym (member-append x (field c) (flatten field cs)) ∙ h)))
]

pub Declares-member :
    (field : CapabilitySnapshot → List String) (cs : List CapabilitySnapshot) (x : String)
    → Declares field cs x
    → member x (flatten field cs) ≡ true
unfolding flatten
Declares-member field [] x h = absurd h
Declares-member field (c ∷ cs) x (inl here) =
    rw (member-append x (field c) (flatten field cs), here) refl
Declares-member field (c ∷ cs) x (inr more) =
    rw (member-append x (field c) (flatten field cs), Declares-member field cs x more)
      (ground arith)

-- The same with a list at the top.
abbrev pub Names :
    List String → (CapabilitySnapshot → List String) → List CapabilitySnapshot → String → Type 0
Names top field cs x = (member x top ≡ true) ⊎ Declares field cs x

pub member-Names :
    (top : List String) (field : CapabilitySnapshot → List String) (cs : List CapabilitySnapshot)
    (x : String)
    → member x (top ++ flatten field cs) ≡ true
    → Names top field cs x
member-Names top field cs x h = elim (Bool-cases (member x top)) [
  | inl here ↦ inl here
  | inr elsewhere ↦ inr (
      member-Declares field cs x
        (rw (elsewhere) at (sym (member-append x top (flatten field cs)) ∙ h)))
]

pub Names-member :
    (top : List String) (field : CapabilitySnapshot → List String) (cs : List CapabilitySnapshot)
    (x : String)
    → Names top field cs x
    → member x (top ++ flatten field cs) ≡ true
Names-member top field cs x (inl here) = rw (member-append x top (flatten field cs), here) refl
Names-member top field cs x (inr more) =
    rw (member-append x top (flatten field cs), Declares-member field cs x more) (ground arith)

abbrev pub Reaches : List CapabilitySnapshot → Type 0
Reaches cs = Some (λ c. c.external_network ≡ true) cs

pub any_external_network-Reaches :
    (cs : List CapabilitySnapshot) → any_external_network cs ≡ true → Reaches cs
unfolding any_external_network
any_external_network-Reaches [] h = cc
any_external_network-Reaches (c ∷ cs) h = elim (Bool-cases c.external_network) [
  | inl here ↦ inl here
  | inr elsewhere ↦ inr (any_external_network-Reaches cs (rw (elsewhere) at h))
]

pub Reaches-any_external_network :
    (cs : List CapabilitySnapshot) → Reaches cs → any_external_network cs ≡ true
unfolding any_external_network
Reaches-any_external_network [] h = absurd h
Reaches-any_external_network (c ∷ cs) (inl here) = rw (here) refl
Reaches-any_external_network (c ∷ cs) (inr more) =
    rw (Reaches-any_external_network cs more) (ground arith)
