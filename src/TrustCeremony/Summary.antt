-- ===== src/TrustCeremony/Summary.antt =====
-- The permission card does not understate where data goes, and no path is short without a
-- cryptographic signature.
use Prim.Native.String.{String, count}
use text.Mathlib.Text.{◌==◌}
use legalise.Base.{
  ℕ, ◌≡◌, refl, sym, ap, subst, ◌∙◌, ◌↔◌, ◌≢◌, inl, inr, Bool, true, false, ◌&&◌, List, [], ◌∷◌,
  Option, none, some, All, if◌then◌else◌, Bool-cases, Option-cases, arith, ltb, is_none,
}
use legalise.TrustCeremony.Card.{
  DataMovement, Capability, Manifest, add, add_all, is_empty, no_movement, aggregate_step,
  aggregate_data_movement,
}
use legalise.TrustCeremony.Signing.{
  SignatureResult, Crypto, publisher_info, publisher_signing_key, check_signature, check_effective,
  check_publisher, either, verify_manifest_signature,
}
use legalise.TrustCeremony.Machine.{
  Ceremony, World, is_verified, start_ceremony, build_permission_card, emit_state_transition,
}

add-is_empty : (a : String) (s : List String) → is_empty (add a s) ≡ false
add-is_empty a [] = refl
add-is_empty a (b ∷ s) = ground arith

add_all-is_empty : (l s : List String) → is_empty (add_all l s) ≡ (is_empty l && is_empty s)
add_all-is_empty [] s = refl
add_all-is_empty (a ∷ l) s = ground (arith, add_all-is_empty l (add a s), add-is_empty a s)

-- A capability that sends nothing outside: no destination, and no `local_only: false`.
abbrev pub Local : Capability → Type 0
Local cap =
    (is_empty cap.data_movement.external_destinations ≡ true)
    × (cap.data_movement.local_only ≢ some false)

-- `local_only` holds, and there is no destination.
abbrev home : Option Bool → Bool → Bool
home none empty = false
home (some here) empty = here && empty

abbrev at_home : DataMovement → Bool
at_home acc = home acc.local_only (is_empty acc.external_destinations)

merged :
    (declared acc : Option Bool) (empty rest : Bool)
    → (home
          (elim declared [ none ↦ acc | some here ↦ if here then acc else some false ])
          (empty && rest)
        ≡ true)
      ↔ ((home acc rest ≡ true) × (empty ≡ true) × (declared ≢ some false))
merged none none empty rest = ((λ h. cc), (λ p. p.0))
merged none (some here) empty rest = ground arith
merged (some true) none empty rest = ((λ h. cc), (λ p. p.0))
merged (some true) (some here) empty rest = ground arith
merged (some false) acc empty rest = ((λ h. cc), (λ p. absurd (p.2 refl)))

step-Local :
    (caps : List Capability) (acc : DataMovement)
    → (at_home (aggregate_step caps acc) ≡ true) ↔ ((at_home acc ≡ true) × All Local caps)
unfolding aggregate_step
step-Local [] acc = ((λ h. (h, tt)), (λ p. p.0))
step-Local (first_cap ∷ caps) acc =
    let dm = first_cap.data_movement in
    let (through, back) = step-Local caps _ in
    let (there, here) =
      merged dm.local_only acc.local_only (is_empty dm.external_destinations)
        (is_empty acc.external_destinations) in
    let same = add_all-is_empty dm.external_destinations acc.external_destinations in
    (
      (λ h.
          let (first, rest) = through h in
          let (before, empty, declared) = there (ap (home _) (sym same) ∙ first) in
          (before, ((empty, declared), rest))),
      (λ p.
          let (before, ((empty, declared), rest)) = p in
          back (ap (home _) same ∙ here (before, empty, declared), rest)),
    )

local_of : (l : Option Bool) → home l true ≡ true → l ≡ some true
local_of none h = cc
local_of (some true) h = refl
local_of (some false) h = cc

outside : (l : Option Bool) (empty : Bool) → empty ≡ false → home l empty ≡ true → ⊥
outside none empty k h = cc
outside (some true) empty k h = cc
outside (some false) empty k h = cc

-- The card says `local_only` exactly when no declared capability names an external destination or
-- says that it is not local.
pub aggregate_data_movement-Local :
    (caps : List Capability)
    → ((aggregate_data_movement caps).local_only ≡ some true) ↔ All Local caps
unfolding aggregate_data_movement
aggregate_data_movement-Local caps =
    let sum = aggregate_step caps no_movement in
    let (sound, complete) = step-Local caps no_movement in
    elim (Bool-cases (is_empty sum.external_destinations)) [
      | inl empty ↦ rw empty (
        (λ h. (sound (rw (h, empty))).1),
        (λ all.
            local_of sum.local_only (ap (home sum.local_only) (sym empty) ∙ complete (refl, all))),
      )
      | inr some_destination ↦ rw some_destination (
        (λ h. cc),
        (λ all. absurd (outside sum.local_only _ some_destination (complete (refl, all)))),
      )
    ]

no_key : (publisher : String) → publisher_signing_key publisher ≡ none
unfolding publisher_signing_key publisher_info
no_key publisher = elim (Bool-cases (publisher == "legalise")) [
  | inl one ↦ rw (one, publisher_signing_key)
  | inr h ↦
      rw (h, publisher_signing_key)
        (elim (Bool-cases (publisher == "example")) [ inl two ↦ rw two | inr k ↦ rw k ])
]

if-unverified :
    (b : Bool) (x y : SignatureResult)
    → is_verified x.status ≡ false
    → is_verified y.status ≡ false
    → is_verified (if b then x else y).status ≡ false
if-unverified true x y h k = h
if-unverified false x y h k = k

module _ (crypto : Crypto) (manifest : Manifest) where
  check_signature-unverified :
      (publisher signature : String)
      → is_verified (check_signature crypto manifest publisher signature).status ≡ false
  unfolding check_signature is_verified
  check_signature-unverified publisher signature = rw (no_key publisher) (ground arith)

  effective :
      (publisher : String) (o : Option String)
      → is_verified (check_effective crypto o manifest publisher).status ≡ false
  unfolding is_verified check_effective
  effective publisher none = refl
  effective publisher (some s) =
      if-unverified (ltb (count s) 16) _ _ refl (check_signature-unverified publisher s)

  check_publisher-unverified :
      (publisher : Option String) (signature : Option String)
      → is_verified (check_publisher crypto publisher manifest signature).status ≡ false
  unfolding check_publisher is_verified
  check_publisher-unverified none signature = refl
  check_publisher-unverified (some publisher) signature = elim (Bool-cases (publisher == "")) [
    | inl missing ↦ rw missing
    | inr h ↦
        rw h (elim (Bool-cases (is_none signature && is_none (either manifest.signature none))) [
          | inl no_signature ↦ rw no_signature
          | inr k ↦ rw k (effective publisher (either signature manifest.signature))
        ])
  ]

abbrev Full : Option (Ceremony × World) → Type 0
Full none = Unit
Full (some (c, w)) = c.fast_path ≡ false

start_ceremony-Full :
    (crypto : Crypto) (id : ℕ) (manifest : Manifest) (user : ℕ) (signature : Option String)
    (w : World)
    → Full (start_ceremony crypto id manifest user signature w)
unfolding start_ceremony emit_state_transition verify_manifest_signature
start_ceremony-Full crypto id manifest user signature w =
    elim (Option-cases (build_permission_card manifest)) [
      | inl bad ↦ rw (bad, start_ceremony) tt
      | inr (card, good) ↦
          rw (good, start_ceremony)
            (ap (λ b. b && card.publisher_verified)
              (check_publisher-unverified crypto manifest manifest.publisher signature))
    ]

-- No publisher of the registry has a key, so no signature is verified, and every ceremony that
-- starts, whatever its manifest and signature, is on the full path.
pub start_ceremony-full :
    (crypto : Crypto) (id : ℕ) (manifest : Manifest) (user : ℕ) (signature : Option String)
    (w w' : World) (c : Ceremony)
    → start_ceremony crypto id manifest user signature w ≡ some (c, w')
    → c.fast_path ≡ false
start_ceremony-full crypto id manifest user signature w w' c h =
    subst Full h (start_ceremony-Full crypto id manifest user signature w)
