-- ===== src/Capabilities.antt =====
-- Runtime enforcement of capability grants (backend/app/core/capabilities.py), and the helper that
-- the substrate calls (backend/app/core/phase1_runtime/capability_check.py). Users, plugins, skills,
-- capabilities and matters are only compared, so they are numbers. The `CHECK` constraints of the
-- grants table are not modelled.
pub mod Scopes
pub mod Grammar
pub mod Revoked
mod Tests
use legalise.Base.{
  ℕ, Bool, true, false, ◌&&◌, ◌||◌, List, [], ◌∷◌, Option, none, some, ◌==◌, opt_eq, if◌then◌else◌,
  is_none,
}

pub data ScopeType : Type 0 where
  workspace matter : ScopeType
  other : ℕ → ScopeType

abbrev pub scope_type_eq : ScopeType → ScopeType → Bool
scope_type_eq workspace workspace = true
scope_type_eq matter matter = true
scope_type_eq (ScopeType.other m) (ScopeType.other n) = m == n
scope_type_eq _ _ = false

-- The columns of the unique key of `workspace_skill_capability_grants`.
pub record Grant : Type 0 where
  pub user_id : ℕ
  pub plugin : ℕ
  pub skill : ℕ
  pub capability : ℕ
  pub scope_type : ScopeType
  pub scope_id : Option ℕ

-- The `(user, plugin, skill, capability)` of a call.
pub record Subject : Type 0 where
  pub user_id : ℕ
  pub plugin : ℕ
  pub skill : ℕ
  pub capability : ℕ

abbrev pub subject_eq : Subject → Grant → Bool
subject_eq s g =
    s.user_id == g.user_id
    && s.plugin == g.plugin
    && s.skill == g.skill
    && s.capability == g.capability

-- Equality under `NULLS NOT DISTINCT`.
abbrev pub grant_eq : Grant → Grant → Bool
grant_eq g h =
    g.user_id == h.user_id
    && g.plugin == h.plugin
    && g.skill == h.skill
    && g.capability == h.capability
    && scope_type_eq g.scope_type h.scope_type
    && opt_eq g.scope_id h.scope_id

-- The audit rows of a denial.
pub data Denial : Type 0 where
  -- `module.capability.denied`, with the matter that was asked for
  capability_denied : Subject → Option ℕ → Denial
  -- the canonical `*.blocked` row: the action, the actor, and the matter
  blocked : ℕ → ℕ → Option ℕ → Subject → Denial

pub record Database : Type 0 where
  pub grants : List Grant
  -- committed, newest first
  pub audits : List Denial

abbrev pub exists_grant : (Grant → Bool) → List Grant → Bool
exists_grant test [] = false
exists_grant test (g ∷ gs) = test g || exists_grant test gs

-- The `WHERE` clause of `require_capability`.
unfoldable pub satisfies : Subject → Option ℕ → Grant → Bool
satisfies s none g = subject_eq s g && scope_type_eq g.scope_type workspace && is_none g.scope_id
satisfies s (some matter_id) g =
    subject_eq s g && scope_type_eq g.scope_type matter && opt_eq g.scope_id (some matter_id)

-- `true` is a return, `false` a `CapabilityDenied`.
unfoldable pub require_capability : Subject → Option ℕ → Database → Bool × Database
unfolding satisfies
require_capability s matter_id db =
    if exists_grant (satisfies s matter_id) db.grants
    then (true, db)
    else (false, record db { audits = capability_denied s matter_id ∷ db.audits })

-- `scope_type or SCOPE_TYPE_WORKSPACE`; an empty text counts as missing.
abbrev pub or_workspace : Option ScopeType → ScopeType
or_workspace none = workspace
or_workspace (some t) = t

-- The row that `grant` inserts for its arguments; `none` is a missing `scope_type`.
unfoldable pub effective : Subject → Option ScopeType → Option ℕ → Grant
effective s scope_type scope_id =
    let effective_scope_type = or_workspace scope_type in
    record {
      user_id = s.user_id;
      plugin = s.plugin;
      skill = s.skill;
      capability = s.capability;
      scope_type = effective_scope_type;
      scope_id = if scope_type_eq effective_scope_type matter then scope_id else none;
    }

-- `INSERT … ON CONFLICT DO NOTHING`
unfoldable pub grant : Subject → Option ScopeType → Option ℕ → Database → Database
unfolding effective
grant s scope_type scope_id db =
    let row = effective s scope_type scope_id in
    if exists_grant (grant_eq row) db.grants then db else record db { grants = row ∷ db.grants }

-- `grant_many`, which grants in the workspace's scope.
unfoldable pub grant_many : ℕ → ℕ → ℕ → List ℕ → Database → Database
unfolding grant
grant_many user_id plugin skill [] db = db
grant_many user_id plugin skill (capability ∷ more) db = grant_many user_id plugin skill more (
    grant (record { user_id = user_id; plugin = plugin; skill = skill; capability = capability })
      none none db)

-- `actor_id if actor_id is not None else user_id`
abbrev pub acting : Subject → Option ℕ → ℕ
acting s none = s.user_id
acting s (some actor) = actor

-- `check_or_block`, once its defaults are filled in; `false` is a `Phase1Blocked`.
unfoldable pub check_or_block : Subject → ℕ → Option ℕ → Option ℕ → Database → Bool × Database
unfolding require_capability
check_or_block s block_action actor_id matter_id db =
    let (granted, db') = require_capability s none db in
    if granted then (true, db') else (
      false,
      record db' { audits = blocked block_action (acting s actor_id) matter_id s ∷ db'.audits },
    )

-- `list_granted`, whose query does not look at the scope.
unfoldable pub list_granted : ℕ → ℕ → ℕ → List Grant → List ℕ
list_granted user_id plugin skill [] = []
list_granted user_id plugin skill (g ∷ gs) =
    let rest = list_granted user_id plugin skill gs in
    if user_id == g.user_id && plugin == g.plugin && skill == g.skill
    then g.capability ∷ rest
    else rest

-- The row that `revoke` deletes: one of the subject's, in whichever scope; the query has no order,
-- and the model takes the newest.
unfoldable pub delete_one : Subject → List Grant → List Grant
delete_one s [] = []
delete_one s (g ∷ gs) = let rest = delete_one s gs in if subject_eq s g then gs else g ∷ rest

unfoldable pub revoke : Subject → Database → Database
unfolding delete_one
revoke s db = record db { grants = delete_one s db.grants }
