-- ===== src/Expansion/Covered.antt =====
-- What an update declares that needs no new ceremony.
use Prim.Native.String.{String}
use legalise.Base.{All, ◌⊎◌, ◌≤◌, ◌≡◌, refl, Bool, true, false, not, ◌||◌, List, Option, none, some}
use legalise.TrustCeremony.Card.{member}
use legalise.AdviceBoundary.Tiers.{Tier}
use legalise.Expansion.Declared.{Declares, Names, Reaches}
use legalise.Expansion.Accesses.{Accessed}
use legalise.Expansion.Ranked.{height, Tiered}
use legalise.Expansion.{CapabilitySnapshot, Snapshot, ExpansionReport, requires_reprompt}

-- Every element of one list is in the other.
abbrev Within : List String → List String → Type 0
Within new old = (x : String) → member x new ≡ true → member x old ≡ true

-- Nothing of these kinds beyond the old snapshot: no read, write, destination or gate that nothing
-- declared, no network where none was open, no capability with a stricter model access than all
-- before, and no tier above all before (the least tier counts as declared).
abbrev pub NoMore : Snapshot → Snapshot → Type 0
NoMore old new =
    ((x : String)
      → Declares CapabilitySnapshot.reads new.capabilities x
      → Declares CapabilitySnapshot.reads old.capabilities x)
    × ((x : String)
        → Declares CapabilitySnapshot.writes new.capabilities x
        → Declares CapabilitySnapshot.writes old.capabilities x)
    × ((x : String)
        → Names new.external_destinations CapabilitySnapshot.external_destinations new.capabilities
            x
        → Names old.external_destinations CapabilitySnapshot.external_destinations old.capabilities
            x)
    × ((x : String)
        → Names new.gates CapabilitySnapshot.gates new.capabilities x
        → Names old.gates CapabilitySnapshot.gates old.capabilities x)
    × (Reaches new.capabilities → Reaches old.capabilities)
    × All (Accessed old.capabilities) new.capabilities

abbrev pub NoHigher : Snapshot → Snapshot → Type 0
NoHigher old new =
    (t : Tier)
    → Tiered new t
    → (u : Tier) × (Tiered old u ⊎ (u ≡ Tier.factual_extraction)) × (height t ≤ height u)

split_or : (a b : Bool) → (a || b) ≡ false → (a ≡ false) × (b ≡ false)
split_or true b h = cc
split_or false b h = (refl, h)

opened : (b : Bool) → not b ≡ false → b ≡ true
opened true h = refl
opened false h = cc

-- What a comparison that raised nothing says, in the order of `detect_expansion`.
abbrev Quiet : Snapshot → Snapshot → Option ExpansionReport → Type 0
Quiet old new none = Unit
Quiet old new (some r) = requires_reprompt r ≡ false → NoMore old new × NoHigher old new
