-- ===== src/TrustCeremony/Tests.antt =====
-- The ceremony at a concrete manifest.
use legalise.Base.{ℕ, ◌≡◌, refl, ◌↔◌, true, false, [], ◌∷◌, none, some, All, if◌then◌else◌}
use legalise.AdviceBoundary.Tiers.{Tier, tier_rank_table}
use legalise.TrustCeremony.Card.{
  DataMovement, Capability, Manifest, aggregate_data_movement, highest_tier,
}
use legalise.TrustCeremony.Signing.{SignatureStatus, Crypto, verify_manifest_signature}
use legalise.TrustCeremony.Machine.{
  CeremonyState, Action, Ceremony, World, ok, raise, find, start_ceremony, advance_install,
  is_enabled,
}
use legalise.TrustCeremony.Walk.{Trail, states}
use legalise.TrustCeremony.Registry.{Served, boot, started, advanced, count, Served-Trail}
use legalise.TrustCeremony.Summary.{Local, aggregate_data_movement-Local, start_ceremony-full}

abbrev local_movement : DataMovement
local_movement = record {
  sends_document_body = true;
  sends_document_binary = false;
  sends_matter_metadata = false;
  external_destinations = [];
  local_only = none;
}

abbrev remote_movement : DataMovement
remote_movement = record local_movement { external_destinations = "api.example" ∷ [] }

abbrev reading : Capability
reading = record {
  id = "matter.read";
  reads = "matter" ∷ [];
  writes = [];
  external_network = false;
  gates = "privilege" ∷ [];
  audit_events = [];
  advice_tier_max = some Tier.draft_advice;
  data_movement = local_movement;
}

abbrev sending : Capability
sending = record reading { advice_tier_max = none; data_movement = remote_movement }

abbrev notes : Manifest
notes = record {
  id = "notes";
  name = "Notes";
  publisher = some "legalise";
  signed_by = none;
  signature = some "0123456789abcdef";
  visibility = "community";
  version = "1.0.0";
  capabilities = reading ∷ [];
}

abbrev no_crypto : Crypto
no_crypto = record {
  Bytes = ℕ;
  Key = ℕ;
  b64decode = λ s. none;
  from_public_bytes = λ b. some b;
  verify = λ k s d. true;
  manifest_signing_digest = λ m. 0;
}

structure_only :
    (verify_manifest_signature no_crypto notes none).status ≡ SignatureStatus.structure_verified
unfolding verify_manifest_signature
structure_only = refl

worst_tier : highest_tier (sending ∷ reading ∷ []) ≡ some Tier.draft_advice
unfolding highest_tier tier_rank_table
worst_tier = refl

aggregate_data_movement-Local_example :
    ((aggregate_data_movement (reading ∷ sending ∷ [])).local_only ≡ some true)
    ↔ All Local (reading ∷ sending ∷ [])
aggregate_data_movement-Local_example = aggregate_data_movement-Local (reading ∷ sending ∷ [])

abbrev empty_world : World
empty_world = record { ceremonies = []; audits = []; installs = [] }

abbrev nothing : Ceremony × World
nothing = (
  record {
    id = 0;
    manifest = notes;
    state = CeremonyState.discovered;
    fast_path = true;
    permission_card = record {
      module_id = "";
      module_name = "";
      publisher = none;
      publisher_verified = false;
      signature_status = none;
      visibility = "";
      version = "";
      capabilities = [];
      data_movement_summary = local_movement;
      gates = [];
      advice_tier_max = Tier.draft_advice;
      audit_events = [];
    };
    actor_user_id = 0;
    history = [];
    persisted = false;
  },
  empty_world,
)

abbrev begun : Ceremony × World
begun = elim (start_ceremony no_crypto 4 notes 9 none empty_world) [ none ↦ nothing | some p ↦ p ]

begun_is : start_ceremony no_crypto 4 notes 9 none empty_world ≡ some begun
unfolding start_ceremony verify_manifest_signature tier_rank_table
begun_is = refl

abbrev then_do : Action → Ceremony × World → Ceremony × World
then_do action (c, w) = elim (advance_install 4 action w) [ raise e ↦ nothing | ok p ↦ p ]

abbrev stopped : Ceremony × World
stopped = then_do Action.reject (then_do Action.trust begun)

stopped-Served : Served no_crypto stopped.1
unfolding start_ceremony advance_install verify_manifest_signature tier_rank_table
stopped-Served =
    advanced stopped.0 4 Action.reject
      (advanced (then_do Action.trust begun).0 4 Action.trust
        (started begun.0 4 notes 9 none boot refl refl) refl)
      refl

start_ceremony-full_example : begun.0.fast_path ≡ false
start_ceremony-full_example =
    start_ceremony-full no_crypto 4 notes 9 none empty_world begun.1 begun.0 begun_is

stopped_is : find 4 stopped.1.ceremonies ≡ some stopped.0
unfolding start_ceremony advance_install verify_manifest_signature tier_rank_table
stopped_is = refl

-- Six times `trust`, then `grant`: one install, and no second one on a repeated call.
abbrev admitted : Ceremony × World
admitted = then_do Action.grant (
    then_do Action.trust (
      then_do Action.trust (
        then_do Action.trust
          (then_do Action.trust (then_do Action.trust (then_do Action.trust begun))))))

admitted_once :
    (admitted.1.installs ≡ 4 ∷ []) × ((then_do Action.grant admitted).1.installs ≡ 4 ∷ [])
unfolding start_ceremony advance_install verify_manifest_signature tier_rank_table
admitted_once = (refl, refl)

Served-Trail_example :
    Trail stopped.0.fast_path (states stopped.0.history) stopped.0.state
    × (count 4 stopped.1.installs ≡ (if stopped.0.persisted then 1 else 0))
    × (stopped.0.persisted ≡ true → is_enabled stopped.0.state ≡ true)
Served-Trail_example = Served-Trail stopped-Served 4 stopped.0 stopped_is
