-- ===== src/TrustCeremony/Registry.antt =====
-- Every registry that the endpoints can reach, whatever the order of the requests.
use Prim.Native.String.{String}
use legalise.Base.{
  ℕ, ◌+◌, ◌≡◌, refl, sym, ap, subst, ◌∙◌, inl, inr, true, false, not, ◌&&◌, List, [], ◌∷◌, Option,
  none, some, ◌==◌, ==_iff, ==_refl, if◌then◌else◌, Bool-cases, Option-cases, arith,
}
use legalise.TrustCeremony.Signing.{Crypto}
use legalise.TrustCeremony.Card.{Manifest}
use legalise.TrustCeremony.Machine.{
  Action, Ceremony, World, is_enabled, emit_state_transition, find, replace, start_ceremony, Result,
  ok, raise, advance, advance_ceremony, persist_install, advance_install, build_permission_card,
}
use legalise.TrustCeremony.Walk.{route, Trail, states, Proper, Kept, Returns, advance-Proper}

-- The start of the process, and the requests that return. An identifier is new: it is a `uuid4`.
pub data Served (crypto : Crypto) : World → Type 1 where
  boot : Served crypto (record { ceremonies = []; audits = []; installs = [] })
  started :
      {w w' : World} (c : Ceremony) (id : ℕ) (manifest : Manifest) (user : ℕ)
      (signature : Option String)
      → Served crypto w
      → find id w.ceremonies ≡ none
      → start_ceremony crypto id manifest user signature w ≡ some (c, w')
      → Served crypto w'
  advanced :
      {w w' : World} (c : Ceremony) (id : ℕ) (action : Action)
      → Served crypto w
      → advance_install id action w ≡ ok (c, w')
      → Served crypto w'

-- How often a ceremony was persisted.
abbrev pub count : ℕ → List ℕ → ℕ
count id [] = 0
count id (i ∷ is) = (if i == id then 1 else 0) + count id is

-- What is known of the ceremony that an identifier finds, and of its installs.
abbrev Known : ℕ → World → Option Ceremony → Type 0
Known id w none = count id w.installs ≡ 0
Known id w (some c) =
    (c.id ≡ id) × Proper c × (count id w.installs ≡ (if c.persisted then 1 else 0))

Fine : World → Type 0
Fine w = (id : ℕ) → Known id w (find id w.ceremonies)

abbrev replaced : Ceremony → ℕ → Option Ceremony → Option Ceremony
replaced c id none = none
replaced c id (some d) = if c.id == id then some c else some d

find-replace :
    (c : Ceremony) (id : ℕ) (cs : List Ceremony)
    → find id (replace c cs) ≡ replaced c id (find id cs)
unfolding find replace
find-replace c id [] = refl
find-replace c id (d ∷ ds) = ground (arith, find-replace c id ds)

Known-count :
    (id : ℕ) (w w' : World) (o : Option Ceremony)
    → count id w'.installs ≡ count id w.installs
    → Known id w o
    → Known id w' o
Known-count id w w' none same k = same ∙ k
Known-count id w w' (some c) same (named, proper, once) = (named, proper, same ∙ once)

unchanged :
    (c : Ceremony) (id : ℕ) (o : Option Ceremony) → (c.id == id) ≡ false → replaced c id o ≡ o
unchanged c id none h = refl
unchanged c id (some d) h = rw h

-- Putting a proper ceremony in the place of the one with its identifier.
put :
    (w w' : World) (c c' : Ceremony)
    → Fine w
    → find c'.id w.ceremonies ≡ some c
    → w'.ceremonies ≡ replace c' w.ceremonies
    → Proper c'
    → count c'.id w'.installs ≡ (if c'.persisted then 1 else 0)
    → ((j : ℕ) → (c'.id == j) ≡ false → count j w'.installs ≡ count j w.installs)
    → Fine w'
unfolding Fine
put w w' c c' fine found placed proper once others j =
    rw (placed, find-replace c' j w.ceremonies)
      (elim (Bool-cases (c'.id == j)) [
        | inl here ↦
            let same = (==_iff c'.id j).0 here in
            subst (λ k. Known k w' (replaced c' k (find k w.ceremonies))) same
              (rw (found, ==_refl c'.id) (refl, proper, once))
        | inr elsewhere ↦
            rw (unchanged c' j (find j w.ceremonies) elsewhere)
              (Known-count j w w' (find j w.ceremonies) (others j elsewhere) (fine j))
      ])

found_is :
    (w : World) (id : ℕ) (c : Ceremony)
    → Fine w
    → find id w.ceremonies ≡ some c
    → Known id w (some c)
unfolding Fine
found_is w id c fine found = subst (Known id w) found (fine id)

-- The two endings of the endpoint: a ceremony that is written back, and one that is persisted too.
written_back :
    (id : ℕ) (w w' : World) (c c' : Ceremony)
    → Fine w
    → find id w.ceremonies ≡ some c
    → Proper c' × Kept c w c' w'
    → Fine (record w' { ceremonies = replace c' w'.ceremonies })
written_back id w w' c c' fine found (proper, (named, kept, fast, cs, is)) =
    let (called, _, once) = found_is w id c fine found in
    let same = named ∙ called in
    put w (record w' { ceremonies = replace c' w'.ceremonies }) c c' fine
      (subst (λ i. find i w.ceremonies ≡ some c) (sym same) found) (rw cs) proper
      (rw (is, same, kept) once) (λ j _. rw is)

-- What `advance_ceremony` returns, if it returns: the ceremony that its registry now holds.
abbrev Held : Result (Ceremony × World) → Type 0
Held (raise e) = Unit
Held (ok (c, w)) = Fine w × (find c.id w.ceremonies ≡ some c)

hold :
    (id : ℕ) (w : World) (c : Ceremony) (r : Result (Ceremony × World))
    → Fine w
    → find id w.ceremonies ≡ some c
    → Returns c w r
    → Held (elim r [
      | raise e ↦ raise e
      | ok (c', w') ↦ ok (c', record w' { ceremonies = replace c' w'.ceremonies })
    ])
hold id w c (raise e) fine found ret = tt
hold id w c (ok (c', w')) fine found (proper, (named, kept, fast, cs, is)) =
    let (called, _, _) = found_is w id c fine found in
    (
      written_back id w w' c c' fine found (proper, (named, kept, fast, cs, is)),
      find-replace c' c'.id w'.ceremonies
          ∙ rw (cs, named ∙ called, found, sym (named ∙ called), ==_refl c'.id) refl,
    )

advance_ceremony-Held :
    (id : ℕ) (action : Action) (w : World) → Fine w → Held (advance_ceremony id action w)
unfolding advance_ceremony
advance_ceremony-Held id action w fine = elim (Option-cases (find id w.ceremonies)) [
  | inl missing ↦ rw (missing, advance_ceremony) tt
  | inr (c, found) ↦
      let (_, proper, _) = found_is w id c fine found in
      rw (found, advance_ceremony)
        (hold id w c (advance action c w) fine found (advance-Proper action c w proper))
]

persist_install-Fine :
    (c : Ceremony) (w : World)
    → Fine w
    → find c.id w.ceremonies ≡ some c
    → is_enabled c.state ≡ true
    → c.persisted ≡ false
    → Fine (persist_install c w).1
unfolding persist_install
persist_install-Fine c w fine found done fresh =
    let (_, (trail, _), once) = found_is w c.id c fine found in
    put w (persist_install c w).1 c (persist_install c w).0 fine found refl (trail, (λ _. done))
      (ground (arith, once, fresh)) (λ j elsewhere. ground (arith, elsewhere))

-- A registry that a call leaves behind is fine.
abbrev Landed : Result (Ceremony × World) → Type 0
Landed (raise e) = Unit
Landed (ok (c, w)) = Fine w

install-Landed :
    (r : Result (Ceremony × World))
    → Held r
    → Landed (elim r [
      | raise e ↦ raise e
      | ok (c, w') ↦
          ok (if is_enabled c.state && not c.persisted then persist_install c w' else (c, w'))
    ])
unfolding persist_install
install-Landed (raise e) held = tt
install-Landed (ok (c, w)) (fine, found) = elim (Bool-cases (is_enabled c.state)) [
  | inr waiting ↦ rw waiting fine
  | inl done ↦ rw done (elim (Bool-cases c.persisted) [
    | inl already ↦ rw already fine
    | inr fresh ↦ rw fresh (persist_install-Fine c w fine found done fresh)
  ])
]

advance_install-Landed :
    (id : ℕ) (action : Action) (w : World) → Fine w → Landed (advance_install id action w)
unfolding advance_install
advance_install-Landed id action w fine =
    install-Landed (advance_ceremony id action w) (advance_ceremony-Held id action w fine)

-- A new ceremony in front of the others.
enter :
    (w w' : World) (c : Ceremony)
    → Fine w
    → find c.id w.ceremonies ≡ none
    → w'.ceremonies ≡ c ∷ w.ceremonies
    → w'.installs ≡ w.installs
    → Proper c
    → c.persisted ≡ false
    → Fine w'
unfolding Fine find
enter w w' c fine absent entered same proper fresh j = rw entered (elim (Bool-cases (c.id == j)) [
  | inl here ↦ rw here (
    (==_iff c.id j).0 here,
    proper,
    rw (same, fresh, sym ((==_iff c.id j).0 here)) (subst (Known c.id w) absent (fine c.id)),
  )
  | inr elsewhere ↦
      rw elsewhere (Known-count j w w' (find j w.ceremonies) (ap (count j) same) (fine j))
])

-- A registry that a new ceremony was entered into is fine.
abbrev Entered : Option (Ceremony × World) → Type 0
Entered none = Unit
Entered (some (c, w)) = Fine w

start_ceremony-Entered :
    (crypto : Crypto) (id : ℕ) (manifest : Manifest) (user : ℕ) (signature : Option String)
    (w : World)
    → Fine w
    → find id w.ceremonies ≡ none
    → Entered (start_ceremony crypto id manifest user signature w)
unfolding start_ceremony emit_state_transition route
start_ceremony-Entered crypto id manifest user signature w fine absent =
    elim (Option-cases (build_permission_card manifest)) [
      | inl bad ↦ rw (bad, start_ceremony) tt
      | inr (card, good) ↦
          rw (good, start_ceremony)
            (enter w _ _ fine absent refl refl (inl (refl, refl), (λ h. cc)) refl)
    ]

Served-Fine : {crypto : Crypto} {w : World} → Served crypto w → Fine w
unfolding Fine find
Served-Fine boot = λ id. refl
Served-Fine {crypto} (started {w} c id manifest user signature s absent h) =
    subst Entered h
      (start_ceremony-Entered crypto id manifest user signature w (Served-Fine s) absent)
Served-Fine (advanced {w} c id action s h) =
    subst Landed h (advance_install-Landed id action w (Served-Fine s))

-- In every registry that the endpoints can reach, a ceremony's history is the path up to its present
-- state, with no step left out, or the path to a state before the end and then the rejection. It
-- was installed once if it is marked as persisted, else never, and it is marked only when enabled.
pub Served-Trail :
    {crypto : Crypto} {w : World}
    → Served crypto w
    → (id : ℕ) (c : Ceremony) → find id w.ceremonies ≡ some c
    → Trail c.fast_path (states c.history) c.state
      × (count id w.installs ≡ (if c.persisted then 1 else 0))
      × (c.persisted ≡ true → is_enabled c.state ≡ true)
Served-Trail {crypto} {w} s id c found =
    let (_, (trail, kept), once) = found_is w id c (Served-Fine s) found in (trail, once, kept)
