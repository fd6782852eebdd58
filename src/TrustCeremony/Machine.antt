-- ===== src/TrustCeremony/Machine.antt =====
-- The ceremony's state machine (backend/app/core/trust_ceremony.py) and the endpoint that advances
-- it (backend/app/api/module_routes/install_ceremony.py). The in-process registry is a list of
-- ceremonies; the audit rows and the installed modules are the rest of the state.
use Prim.Native.String.{String}
use legalise.Base.{
  ℕ, Bool, true, false, not, ◌&&◌, ◌||◌, List, [], ◌∷◌, ◌++◌, Option, none, some, ◌==◌,
  if◌then◌else◌,
}
use legalise.TrustCeremony.Signing.{
  SignatureStatus, verified, Crypto, verify_manifest_signature, is_verified_publisher,
}
use legalise.AdviceBoundary.Tiers.{Tier}
use legalise.TrustCeremony.Card.{
  Manifest, Capability, DataMovement, aggregate_data_movement, aggregate_union, highest_tier,
}

pub data CeremonyState : Type 0 where
  discovered inspected signature_checked publisher_checked : CeremonyState
  permissions_reviewed gates_reviewed granted enabled : CeremonyState
  rejected_by_user signature_failed publisher_blocked : CeremonyState
  permission_denied sandbox_profile_missing : CeremonyState

-- The `action` string: one of `_VALID_ACTIONS`, or some other text.
pub data Action : Type 0 where
  trust reject grant : Action
  other : ℕ → Action

-- Audit actions.
pub data Event : Type 0 where
  module_discovered module_denied manifest_inspected signature_was_checked : Event
  publisher_was_checked permissions_were_reviewed grant_created module_enabled : Event
  state_transition : Event

-- The card without each capability's kind, scope, model access and slot, and without `requires`.
-- A `signature_status` of `none` is the text "unknown".
pub record PermissionCard : Type 0 where
  pub module_id : String
  pub module_name : String
  pub publisher : Option String
  pub publisher_verified : Bool
  pub signature_status : Option SignatureStatus
  pub visibility : String
  pub version : String
  pub capabilities : List Capability
  pub data_movement_summary : DataMovement
  pub gates : List String
  pub advice_tier_max : Tier
  pub audit_events : List String

-- `none` is the `ValueError` of a tier outside the vocabulary.
unfoldable pub build_permission_card : Manifest → Option PermissionCard
unfolding aggregate_data_movement aggregate_union highest_tier is_verified_publisher
build_permission_card manifest = elim (highest_tier manifest.capabilities) [
  | none ↦ none
  | some tier ↦ some (record {
    module_id = manifest.id;
    module_name = manifest.name;
    publisher = manifest.publisher;
    publisher_verified = is_verified_publisher (elim manifest.publisher [ none ↦ "" | some p ↦ p ]);
    signature_status = none;
    visibility = manifest.visibility;
    version = manifest.version;
    capabilities = manifest.capabilities;
    data_movement_summary = aggregate_data_movement manifest.capabilities;
    gates = aggregate_union Capability.gates manifest.capabilities [];
    advice_tier_max = tier;
    audit_events = aggregate_union Capability.audit_events manifest.capabilities [];
  })
]

pub record Ceremony : Type 0 where
  pub id : ℕ
  pub manifest : Manifest
  pub state : CeremonyState
  pub fast_path : Bool
  pub permission_card : PermissionCard
  pub actor_user_id : ℕ
  pub history : List (CeremonyState × Event)
  pub persisted : Bool

-- `state in _TERMINAL_FAILURES`
unfoldable pub is_terminal_failure : CeremonyState → Bool
is_terminal_failure rejected_by_user = true
is_terminal_failure signature_failed = true
is_terminal_failure publisher_blocked = true
is_terminal_failure permission_denied = true
is_terminal_failure sandbox_profile_missing = true
is_terminal_failure _ = false

abbrev pub is_enabled : CeremonyState → Bool
is_enabled enabled = true
is_enabled _ = false

-- `_next_state` for `trust`: the fast path, and the full path.
unfoldable pub fast_next : CeremonyState → CeremonyState
fast_next discovered = publisher_checked
fast_next publisher_checked = permissions_reviewed
fast_next permissions_reviewed = granted
fast_next granted = enabled
fast_next current = current

unfoldable pub full_next : CeremonyState → CeremonyState
full_next discovered = inspected
full_next inspected = signature_checked
full_next signature_checked = publisher_checked
full_next publisher_checked = permissions_reviewed
full_next permissions_reviewed = gates_reviewed
full_next gates_reviewed = granted
full_next granted = enabled
full_next current = current

abbrev pub is_granted : CeremonyState → Bool
is_granted granted = true
is_granted _ = false

-- `_next_state`; `none` is an `InvalidCeremonyTransition`.
unfoldable pub next_state : CeremonyState → Bool → Action → Option CeremonyState
unfolding fast_next full_next
next_state current fast grant = if is_granted current then some enabled else none
next_state current fast action = some (if fast then fast_next current else full_next current)

unfoldable pub audit_for_state : CeremonyState → Event
audit_for_state inspected = manifest_inspected
audit_for_state signature_checked = signature_was_checked
audit_for_state publisher_checked = publisher_was_checked
audit_for_state permissions_reviewed = permissions_were_reviewed
audit_for_state gates_reviewed = permissions_were_reviewed
audit_for_state granted = grant_created
audit_for_state enabled = module_enabled
audit_for_state _ = state_transition

pub record World : Type 0 where
  pub ceremonies : List Ceremony
  -- the audit rows, newest first: the ceremony, its state and the action
  pub audits : List (ℕ × CeremonyState × Event)
  -- the rows that `_persist_install` wrote or refreshed, newest first, by ceremony
  pub installs : List ℕ

-- `_emit_state_transition` on a ceremony that already has its new state.
unfoldable pub emit_state_transition : Event → Ceremony → World → Ceremony × World
emit_state_transition event c w = (
  record c { history = c.history ++ (c.state, event) ∷ [] },
  record w { audits = (c.id, c.state, event) ∷ w.audits },
)

unfoldable pub find : ℕ → List Ceremony → Option Ceremony
find id [] = none
find id (c ∷ cs) = if c.id == id then some c else find id cs

-- The mutation of the object that the registry holds.
unfoldable pub replace : Ceremony → List Ceremony → List Ceremony
replace c [] = []
replace c (d ∷ ds) = if d.id == c.id then c ∷ ds else d ∷ replace c ds

unfoldable pub is_verified : SignatureStatus → Bool
is_verified verified = true
is_verified _ = false

unfoldable pub start_ceremony :
    Crypto → ℕ → Manifest → ℕ → Option String → World → Option (Ceremony × World)
unfolding emit_state_transition is_verified build_permission_card
start_ceremony crypto id manifest actor_user_id signature w =
    elim (build_permission_card manifest) [
      | none ↦ none
      | some card ↦
          let sig_result = verify_manifest_signature crypto manifest signature in
          let ceremony : Ceremony = record {
            id = id;
            manifest = manifest;
            state = discovered;
            fast_path = is_verified sig_result.status && card.publisher_verified;
            permission_card = record card { signature_status = some sig_result.status };
            actor_user_id = actor_user_id;
            history = [];
            persisted = false;
          } in
          let (started, w') = emit_state_transition module_discovered ceremony w in
          some (started, record w' { ceremonies = started ∷ w'.ceremonies })
    ]

pub data AdvanceError : Type 0 where
  unknown_ceremony invalid_transition : AdvanceError

pub data Result (A : Type 0) : Type 0 where
  ok : A → Result A
  raise : AdvanceError → Result A

unfoldable pub is_valid_action : Action → Bool
is_valid_action (Action.other n) = false
is_valid_action _ = true

-- What a valid action does to a ceremony that is not at an end.
unfoldable pub drive : Action → Ceremony → World → Result (Ceremony × World)
unfolding emit_state_transition next_state audit_for_state
drive reject c w =
    ok (emit_state_transition module_denied (record c { state = rejected_by_user }) w)
drive action c w = elim (next_state c.state c.fast_path action) [
  | none ↦ raise invalid_transition
  | some next ↦ ok (emit_state_transition (audit_for_state next) (record c { state = next }) w)
]

-- `advance_ceremony` on the ceremony that was found.
unfoldable pub advance : Action → Ceremony → World → Result (Ceremony × World)
unfolding is_valid_action is_terminal_failure drive
advance action c w =
    if not (is_valid_action action)
    then raise invalid_transition
    else if is_terminal_failure c.state || is_enabled c.state
    then ok (c, w)
    else drive action c w

unfoldable pub advance_ceremony : ℕ → Action → World → Result (Ceremony × World)
unfolding find advance replace
advance_ceremony id action w = elim (find id w.ceremonies) [
  | none ↦ raise unknown_ceremony
  | some c ↦ elim (advance action c w) [
    | raise e ↦ raise e
    | ok (c', w') ↦ ok (c', record w' { ceremonies = replace c' w'.ceremonies })
  ]
]

-- The first time a ceremony is found enabled, `_persist_install` and the flag.
unfoldable pub persist_install : Ceremony → World → Ceremony × World
unfolding replace
persist_install c w =
    let c' = record c { persisted = true } in
    (c', record w { ceremonies = replace c' w.ceremonies; installs = c.id ∷ w.installs })

-- The endpoint, for an administrator. An `InvalidCeremonyTransition` also commits an audit row
-- `module.ceremony.rejected`, outside the request's session; it is not part of this state.
unfoldable pub advance_install : ℕ → Action → World → Result (Ceremony × World)
unfolding advance_ceremony persist_install
advance_install id action w = elim (advance_ceremony id action w) [
  | raise e ↦ raise e
  | ok (c, w') ↦
      ok (if is_enabled c.state && not c.persisted then persist_install c w' else (c, w'))
]
