-- ===== src/Matters/Lifecycle.antt =====
-- backend/app/core/matter_lifecycle.py: the deletion of a matter, which leaves its row archived. The
-- storage is a parameter: whether deleting a prefix succeeds. What a failed deletion
-- has removed by then is not in the state. The caller commits a result and rolls
-- an exception back. Titles are not modelled; texts are numbers.
use legalise.Base.{
  ℕ, suc, Bool, true, false, not, ◌&&◌, List, [], ◌∷◌, Option, some, ◌==◌, ltb, opt_eq,
  if◌then◌else◌,
}
use legalise.Capabilities.{Grant, matter, scope_type_eq, Database}
use legalise.Matters.Jobs.{Job, Status, is_active, is_background, is_export, succeeded}

pub data MatterStatus : Type 0 where
  opened settlement closed archived : MatterStatus

abbrev pub is_archived : MatterStatus → Bool
is_archived archived = true
is_archived _ = false

pub record Matter : Type 0 where
  pub id : ℕ
  pub slug : ℕ
  pub created_by_id : ℕ
  pub status : MatterStatus
  -- a day
  pub retention_until : Option ℕ

pub data Audit : Type 0 where
  -- the action, the actor, the matter and the number of exports
  deletion : ℕ → Option ℕ → ℕ → ℕ → Audit
  deleted_without_export : Option ℕ → ℕ → Audit
  -- the number of grants
  grant_revoked : Option ℕ → ℕ → ℕ → Audit

pub record Store : Type 0 where
  pub matters : List Matter
  pub jobs : List Job
  pub database : Database
  -- newest first
  pub audits : List Audit

abbrev blocks : ℕ → Job → Bool
blocks matter_id j = j.matter_id == matter_id && is_active j.status && not (is_background j.kind)

unfoldable pub active_count : ℕ → List Job → ℕ
active_count matter_id [] = 0
active_count matter_id (j ∷ js) =
    let rest = active_count matter_id js in if blocks matter_id j then suc rest else rest

abbrev has_succeeded : Status → Bool
has_succeeded succeeded = true
has_succeeded _ = false

unfoldable pub export_count : ℕ → List Job → ℕ
export_count matter_id [] = 0
export_count matter_id (j ∷ js) =
    let rest = export_count matter_id js in
    if j.matter_id == matter_id && is_export j.kind && has_succeeded j.status
    then suc rest
    else rest

-- The `WHERE` clause of the cascade.
abbrev pub is_scoped : ℕ → Grant → Bool
is_scoped matter_id g = scope_type_eq g.scope_type matter && opt_eq g.scope_id (some matter_id)

unfoldable pub revoke_grants : ℕ → List Grant → List Grant
revoke_grants matter_id [] = []
revoke_grants matter_id (g ∷ gs) =
    let rest = revoke_grants matter_id gs in if is_scoped matter_id g then rest else g ∷ rest

unfoldable pub revoked_count : ℕ → List Grant → ℕ
revoked_count matter_id [] = 0
revoked_count matter_id (g ∷ gs) =
    let rest = revoked_count matter_id gs in if is_scoped matter_id g then suc rest else rest

unfoldable pub archive : ℕ → List Matter → List Matter
archive id [] = []
archive id (m ∷ ms) =
    let rest = archive id ms in if m.id == id then record m { status = archived } ∷ ms else m ∷ rest

pub data Outcome : Type 0 where
  -- the exports and the revoked grants
  tombstoned : ℕ → ℕ → Outcome
  has_active_jobs : ℕ → Outcome
  storage_delete_error : Outcome

abbrev pub deletion_rows : ℕ → Option ℕ → ℕ → Bool → ℕ → List Audit → List Audit
deletion_rows action actor_id id warn exports audits =
    let rows = deletion action actor_id id exports ∷ audits in
    if warn && (exports == 0) then deleted_without_export actor_id id ∷ rows else rows

abbrev pub revocation_rows : Option ℕ → ℕ → ℕ → List Audit → List Audit
revocation_rows actor_id id revoked audits =
    if ltb 0 revoked then grant_revoked actor_id id revoked ∷ audits else audits

abbrev pub bury : Matter → Option ℕ → ℕ → Bool → Store → Outcome × Store
bury m actor_id action warn s =
    let exports = export_count m.id s.jobs in
    let revoked = revoked_count m.id s.database.grants in
    (
      tombstoned exports revoked,
      record s {
        matters = archive m.id s.matters;
        database = record s.database { grants = revoke_grants m.id s.database.grants };
        audits =
            revocation_rows actor_id m.id revoked
              (deletion_rows action actor_id m.id warn exports s.audits);
      },
    )

-- `delete_prefix` is given the owner and the matter.
unfoldable pub tombstone_matter :
    (ℕ → ℕ → Bool) → Matter → Option ℕ → ℕ → Bool → Store → Outcome × Store
unfolding active_count export_count revoke_grants revoked_count archive
tombstone_matter delete_prefix m actor_id action warn s =
    let active = active_count m.id s.jobs in
    if ltb 0 active
    then (has_active_jobs active, s)
    else if delete_prefix m.created_by_id m.id
    then bury m actor_id action warn s
    else (storage_delete_error, s)
