-- ===== src/TrustCeremony/Walk.antt =====
-- What a reachable registry of ceremonies looks like.
use legalise.Base.{
  ◌≡◌, refl, sym, ap, subst, ◌∙◌, ◌⊎◌, inl, inr, Bool, true, false, List, [], ◌∷◌, ◌++◌, none, some,
  if◌then◌else◌, Bool-cases, Option-cases, eq_of_some_eq,
}
use legalise.TrustCeremony.Machine.{
  CeremonyState, discovered, inspected, signature_checked, publisher_checked, permissions_reviewed,
  gates_reviewed, granted, enabled, rejected_by_user, Action, trust, reject, grant, Event,
  module_denied, Ceremony, World, is_terminal_failure, is_enabled, fast_next, full_next, next_state,
  audit_for_state, emit_state_transition, Result, ok, raise, invalid_transition, is_valid_action,
  drive, advance,
}

-- The states that the two paths pass, up to a state on them.
unfoldable pub route : Bool → CeremonyState → List CeremonyState
route fast discovered = discovered ∷ []
route true publisher_checked = discovered ∷ publisher_checked ∷ []
route true permissions_reviewed = discovered ∷ publisher_checked ∷ permissions_reviewed ∷ []
route true granted = discovered ∷ publisher_checked ∷ permissions_reviewed ∷ granted ∷ []
route true enabled = discovered ∷ publisher_checked ∷ permissions_reviewed ∷ granted ∷ enabled ∷ []
route false inspected = discovered ∷ inspected ∷ []
route false signature_checked = discovered ∷ inspected ∷ signature_checked ∷ []
route false publisher_checked = discovered ∷ inspected ∷ signature_checked ∷ publisher_checked ∷ []
route false permissions_reviewed =
    discovered ∷ inspected ∷ signature_checked ∷ publisher_checked ∷ permissions_reviewed ∷ []
route false gates_reviewed =
    discovered ∷ inspected ∷ signature_checked ∷ publisher_checked ∷ permissions_reviewed
    ∷ gates_reviewed ∷ []
route false granted =
    discovered ∷ inspected ∷ signature_checked ∷ publisher_checked ∷ permissions_reviewed
    ∷ gates_reviewed ∷ granted ∷ []
route false enabled =
    discovered ∷ inspected ∷ signature_checked ∷ publisher_checked ∷ permissions_reviewed
    ∷ gates_reviewed ∷ granted ∷ enabled ∷ []
route _ _ = []

abbrev pub is_nil : List CeremonyState → Bool
is_nil [] = true
is_nil (s ∷ ss) = false

abbrev pub OnRoute : Bool → CeremonyState → Type 0
OnRoute fast s = is_nil (route fast s) ≡ false

-- What `history` says: the whole path up to the present state, or that of a state that was still
-- open, and the rejection.
abbrev pub Trail : Bool → List CeremonyState → CeremonyState → Type 0
Trail fast visited s =
    (OnRoute fast s × (visited ≡ route fast s))
    ⊎ ((u : CeremonyState) × OnRoute fast u
        × (is_enabled u ≡ false)
        × (s ≡ rejected_by_user)
        × (visited ≡ route fast u ++ rejected_by_user ∷ []))

pub extend : {a b : List CeremonyState} (x : CeremonyState) → a ≡ b → a ++ x ∷ [] ≡ b ++ x ∷ []
extend x h = rw h

fast_next-route :
    (s : CeremonyState)
    → OnRoute true s
    → is_enabled s ≡ false
    → OnRoute true (fast_next s) × (route true (fast_next s) ≡ route true s ++ fast_next s ∷ [])
unfolding route fast_next
fast_next-route discovered h k = (refl, refl)
fast_next-route publisher_checked h k = (refl, refl)
fast_next-route permissions_reviewed h k = (refl, refl)
fast_next-route granted h k = (refl, refl)
fast_next-route _ h k = cc

full_next-route :
    (s : CeremonyState)
    → OnRoute false s
    → is_enabled s ≡ false
    → OnRoute false (full_next s) × (route false (full_next s) ≡ route false s ++ full_next s ∷ [])
unfolding route full_next
full_next-route discovered h k = (refl, refl)
full_next-route inspected h k = (refl, refl)
full_next-route signature_checked h k = (refl, refl)
full_next-route publisher_checked h k = (refl, refl)
full_next-route permissions_reviewed h k = (refl, refl)
full_next-route gates_reviewed h k = (refl, refl)
full_next-route granted h k = (refl, refl)
full_next-route _ h k = cc

-- The states that `next_state` leads to, with the action and the path left open.
abbrev Next : Bool → CeremonyState → CeremonyState → Type 0
Next fast s t = OnRoute fast t × (route fast t ≡ route fast s ++ t ∷ [])

either-Next :
    (fast : Bool) (s t : CeremonyState)
    → OnRoute fast s
    → is_enabled s ≡ false
    → some (if fast then fast_next s else full_next s) ≡ some t
    → Next fast s t
either-Next true s t h k e = rw (sym (eq_of_some_eq e)) (fast_next-route s h k)
either-Next false s t h k e = rw (sym (eq_of_some_eq e)) (full_next-route s h k)

next_state-Next :
    (s : CeremonyState) (fast : Bool) (action : Action) (t : CeremonyState)
    → OnRoute fast s
    → is_enabled s ≡ false
    → next_state s fast action ≡ some t
    → Next fast s t
unfolding next_state
next_state-Next granted true grant t h k e =
    rw (sym (eq_of_some_eq e)) (fast_next-route granted h k)
next_state-Next granted false grant t h k e =
    rw (sym (eq_of_some_eq e)) (full_next-route granted h k)
next_state-Next _ fast grant t h k e = cc
next_state-Next s fast _ t h k e = either-Next fast s t h k e

abbrev pub states : List (CeremonyState × Event) → List CeremonyState
states [] = []
states ((s, event) ∷ rest) = s ∷ states rest

states-snoc :
    (h : List (CeremonyState × Event)) (s : CeremonyState) (event : Event)
    → states (h ++ (s, event) ∷ []) ≡ states h ++ s ∷ []
states-snoc [] s event = refl
states-snoc ((t, e) ∷ h) s event = rw (states-snoc h s event)

-- A ceremony with a proper history, which is enabled if it is persisted.
abbrev pub Proper : Ceremony → Type 0
Proper c =
    Trail c.fast_path (states c.history) c.state × (c.persisted ≡ true → is_enabled c.state ≡ true)

-- The parts of the state that `advance` leaves alone.
abbrev pub Kept : Ceremony → World → Ceremony → World → Type 0
Kept c w c' w' =
    (c'.id ≡ c.id)
    × (c'.persisted ≡ c.persisted)
    × (c'.fast_path ≡ c.fast_path)
    × (w'.ceremonies ≡ w.ceremonies)
    × (w'.installs ≡ w.installs)

-- An open ceremony is on its route.
open_route :
    (fast : Bool) (visited : List CeremonyState) (s : CeremonyState)
    → Trail fast visited s
    → is_terminal_failure s ≡ false
    → OnRoute fast s × (visited ≡ route fast s)
unfolding is_terminal_failure
open_route fast visited s (inl on) h = on
open_route fast visited s (inr (u, on, unfinished, here, walked)) h =
    absurd (cc (h, ap is_terminal_failure here))

advance_to :
    (c : Ceremony) (w : World) (next : CeremonyState) (event : Event)
    → Trail c.fast_path (states c.history ++ next ∷ []) next
    → c.persisted ≡ false
    → let (c', w') = emit_state_transition event (record c { state = next }) w in
      Proper c' × Kept c w c' w'
unfolding emit_state_transition
advance_to c w next event trail fresh = (
  (
    subst (λ visited. Trail c.fast_path visited next) (sym (states-snoc c.history next event))
        trail,
    (λ h. cc (h, fresh)),
  ),
  (refl, refl, refl, refl, refl),
)

not_persisted : (p e : Bool) → (p ≡ true → e ≡ true) → e ≡ false → p ≡ false
not_persisted true e h k = cc (h refl, k)
not_persisted false e h k = refl

-- The pair that a result returns.
abbrev pub Returns : Ceremony → World → Result (Ceremony × World) → Type 0
Returns c w (ok (c', w')) = Proper c' × Kept c w c' w'
Returns c w (raise e) = Unit

go_on :
    (action : Action) (c : Ceremony) (w : World)
    → OnRoute c.fast_path c.state
    → states c.history ≡ route c.fast_path c.state
    → is_enabled c.state ≡ false
    → c.persisted ≡ false
    → Returns c w (elim (next_state c.state c.fast_path action) [
      | none ↦ raise invalid_transition
      | some next ↦ ok (emit_state_transition (audit_for_state next) (record c { state = next }) w)
    ])
go_on action c w on walked unended fresh =
    elim (Option-cases (next_state c.state c.fast_path action)) [
      | inl none_next ↦ rw none_next tt
      | inr (next, found) ↦
          let (there, longer) = next_state-Next c.state c.fast_path action next on unended found in
          rw found (
            advance_to c w next (audit_for_state next)
              (inl (there, extend next walked ∙ sym longer)) fresh)
    ]

drive-Proper :
    (action : Action) (c : Ceremony) (w : World)
    → OnRoute c.fast_path c.state
    → states c.history ≡ route c.fast_path c.state
    → is_enabled c.state ≡ false
    → c.persisted ≡ false
    → Returns c w (drive action c w)
unfolding drive
drive-Proper reject c w on walked unended fresh =
    advance_to c w rejected_by_user module_denied
      (inr (c.state, on, unended, refl, extend rejected_by_user walked)) fresh
drive-Proper trust c w on walked unended fresh = go_on trust c w on walked unended fresh
drive-Proper grant c w on walked unended fresh = go_on grant c w on walked unended fresh
drive-Proper (Action.other n) c w on walked unended fresh =
    go_on (Action.other n) c w on walked unended fresh

pub advance-Proper :
    (action : Action) (c : Ceremony) (w : World) → Proper c → Returns c w (advance action c w)
unfolding advance
advance-Proper action c w (trail, kept) = elim (Bool-cases (is_valid_action action)) [
  | inr unknown ↦ rw unknown tt
  | inl valid ↦ rw valid (elim (Bool-cases (is_terminal_failure c.state)) [
    | inl over ↦ rw over ((trail, kept), (refl, refl, refl, refl, refl))
    | inr going ↦ rw going (elim (Bool-cases (is_enabled c.state)) [
      | inl done ↦ rw done ((trail, kept), (refl, refl, refl, refl, refl))
      | inr unended ↦
          let (on, walked) = open_route c.fast_path (states c.history) c.state trail going in
          rw unended (
            drive-Proper action c w on walked unended
              (not_persisted c.persisted (is_enabled c.state) kept unended))
    ])
  ])
]
