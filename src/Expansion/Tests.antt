-- ===== src/Expansion/Tests.antt =====
-- Updates of a small module.
use legalise.Base.{◌≡◌, refl, true, false, [], ◌∷◌, Option, none, some}
use legalise.AdviceBoundary.Tiers.{Tier, tier_rank, tier_rank_table}
use legalise.Expansion.{
  ModelAccess, CapabilitySnapshot, Snapshot, ExpansionReport, report, detect_expansion,
  requires_reprompt,
}

abbrev notes : CapabilitySnapshot
notes = record {
  reads = "matter" ∷ "document" ∷ [];
  writes = [];
  advice_tier_max = some Tier.draft_advice;
  model_access = ModelAccess.optional;
  external_network = false;
  external_destinations = [];
  gates = "privilege" ∷ [];
}

abbrev before : Snapshot
before = record {
  capabilities = notes ∷ [];
  advice_tier_max = none;
  external_destinations = [];
  gates = [];
}

-- An update that drops a read and a gate.
abbrev smaller : Snapshot
smaller = record before { capabilities = record notes { reads = "matter" ∷ []; gates = [] } ∷ [] }

abbrev reported : Option ExpansionReport → ExpansionReport
reported none = report before before none
reported (some r) = r

-- The other way round the read and the gate are new.
larger_asks : requires_reprompt (reported (detect_expansion smaller before)) ≡ true
unfolding detect_expansion tier_rank tier_rank_table requires_reprompt
larger_asks = refl
