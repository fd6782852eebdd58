-- ===== src/Matters/Purged.antt =====
-- What the deletion of Matters/Lifecycle.antt and the sweep of Matters/Sweep.antt leave behind.
use legalise.Base.{
  ℕ, ◌≡◌, refl, sym, ap, ◌∙◌, Bool, true, false, not, ◌&&◌, List, [], ◌∷◌, Option, none, some, ◌==◌,
  opt_eq, arith, subst, ltb, inl, inr, Bool-cases, ◌++◌, ◌||◌, if◌then◌else◌,
}
use legalise.Capabilities.{Grant, Subject, Database, exists_grant, satisfies, require_capability}
use legalise.Matters.Jobs.{
  Job, Status, Kind, queued, running, succeeded, failed, cancelled, export, index, unknown,
  is_active, is_background,
}
use legalise.Matters.Lifecycle.{
  export_count, revoked_count, deleted_without_export, grant_revoked, archived, archive, deletion,
  Audit, has_active_jobs, storage_delete_error, deletion_rows, revocation_rows, Matter, Store,
  Outcome, tombstoned, active_count, revoke_grants, bury, tombstone_matter,
}

abbrev pub is_tombstoned : Outcome → Bool
is_tombstoned (tombstoned _ _) = true
is_tombstoned _ = false

exists_grant-revoke :
    (subject : Subject) (matter_id : ℕ) (scope : Option ℕ) (gs : List Grant)
    → exists_grant (satisfies subject scope) (revoke_grants matter_id gs)
      ≡ (not (opt_eq scope (some matter_id)) && exists_grant (satisfies subject scope) gs)
unfolding revoke_grants satisfies
exists_grant-revoke subject matter_id none [] = refl
exists_grant-revoke subject matter_id (some k) [] = ground arith
exists_grant-revoke subject matter_id none (g ∷ gs) =
    ground (arith, exists_grant-revoke subject matter_id none gs)
exists_grant-revoke subject matter_id (some k) (g ∷ gs) =
    ground (arith, exists_grant-revoke subject matter_id (some k) gs)

require_capability-exists_grant :
    (subject : Subject) (scope : Option ℕ) (db : Database)
    → (require_capability subject scope db).0 ≡ exists_grant (satisfies subject scope) db.grants
unfolding require_capability
require_capability-exists_grant subject scope db = ground arith

-- The statuses of a job that is over, and the kind that does not hold a matter.
abbrev pub over : Status → Bool
over queued = false
over running = false
over succeeded = true
over failed = true
over cancelled = true

abbrev pub in_background : Kind → Bool
in_background index = true
in_background export = false
in_background (unknown _) = false

abbrev pub idle : ℕ → Job → Bool
idle matter_id j = not (j.matter_id == matter_id) || over j.status || in_background j.kind

-- No job holds the matter.
abbrev pub all_idle : ℕ → List Job → Bool
all_idle matter_id [] = true
all_idle matter_id (j ∷ js) = idle matter_id j && all_idle matter_id js

is_active-over : (status : Status) → is_active status ≡ not (over status)
is_active-over queued = refl
is_active-over running = refl
is_active-over succeeded = refl
is_active-over failed = refl
is_active-over cancelled = refl

is_background-kind : (kind : Kind) → is_background kind ≡ in_background kind
is_background-kind index = refl
is_background-kind export = refl
is_background-kind (unknown _) = refl

active_count-all_idle :
    (matter_id : ℕ) (js : List Job)
    → ltb 0 (active_count matter_id js) ≡ not (all_idle matter_id js)
unfolding active_count
active_count-all_idle matter_id [] = refl
active_count-all_idle matter_id (j ∷ js) =
    ground (
      arith,
      active_count-all_idle matter_id js,
      is_active-over j.status,
      is_background-kind j.kind,
    )

abbrev pub find_matter : ℕ → List Matter → Option Matter
find_matter id [] = none
find_matter id (m ∷ ms) = if m.id == id then some m else find_matter id ms

abbrev pub archived_if : Bool → Option Matter → Option Matter
archived_if true (some m) = some (record m { status = archived })
archived_if true none = none
archived_if false o = o

find_matter-archive :
    (id k : ℕ) (ms : List Matter)
    → find_matter id (archive k ms) ≡ archived_if (id == k) (find_matter id ms)
unfolding archive
find_matter-archive id k [] = elim (Bool-cases (id == k)) [
  | inl same ↦ rw (same) refl
  | inr apart ↦ rw (apart) refl
]
find_matter-archive id k (m ∷ ms) = elim (Bool-cases (m.id == k)) [
  | inr apart ↦ elim (Bool-cases (m.id == id)) [
    | inl here ↦
        let other : (id == k) ≡ false = ground (arith, here, apart) in rw (apart, here, other) refl
    | inr elsewhere ↦ rw (apart, elsewhere) (find_matter-archive id k ms)
  ]
  | inl same ↦ elim (Bool-cases (m.id == id)) [
    | inl here ↦
        let its : (id == k) ≡ true = ground (arith, here, same) in rw (same, here, its) refl
    | inr elsewhere ↦
        let other : (id == k) ≡ false = ground (arith, elsewhere, same) in
        rw (same, elsewhere, other) refl
  ]
]

-- The row was added to the log, and perhaps others after it.
abbrev Added : Audit → List Audit → List Audit → Type 0
Added row old new = (rows : List Audit) × (new ≡ rows ++ row ∷ old)

deletion_rows-Added :
    (action : ℕ) (actor_id : Option ℕ) (id : ℕ) (warn : Bool) (exports : ℕ) (audits : List Audit)
    → Added
        (deletion action actor_id id exports)
        audits
        (deletion_rows action actor_id id warn exports audits)
deletion_rows-Added action actor_id id warn exports audits =
    elim (Bool-cases (warn && (exports == 0))) [
      | inl warned ↦ rw (warned) (deleted_without_export actor_id id ∷ [], refl)
      | inr quiet ↦ rw (quiet) ([], refl)
    ]

revocation_rows-Added :
    (actor_id : Option ℕ) (id revoked : ℕ) (row : Audit) (old new : List Audit)
    → Added row old new
    → Added row old (revocation_rows actor_id id revoked new)
revocation_rows-Added actor_id id revoked row old new (rows, added) =
    elim (Bool-cases (ltb 0 revoked)) [
      | inl some_were ↦ rw (some_were) (
        grant_revoked actor_id id revoked ∷ rows,
        ap (λ l. grant_revoked actor_id id revoked ∷ l) added,
      )
      | inr none_were ↦ rw (none_were) (rows, added)
    ]

-- What a call leaves of the rows, by whether it deletes the matter.
abbrev pub Effect : ℕ → Option ℕ → ℕ → Store → Bool → Outcome × Store → Type 0
Effect id actor_id action s true result =
    (is_tombstoned result.0 ≡ true)
    × ((k : ℕ) → find_matter k result.1.matters ≡ archived_if (k == id) (find_matter k s.matters))
    × (result.1.jobs ≡ s.jobs)
    × (rows : List Audit) × (exports : ℕ) × (result.1.audits
        ≡ rows ++ deletion action actor_id id exports ∷ s.audits)
Effect id actor_id action s false result = (is_tombstoned result.0 ≡ false) × (result.1 ≡ s)

module _ (delete_prefix : ℕ → ℕ → Bool) (m : Matter) (actor_id : Option ℕ) (action : ℕ)
    (warn : Bool) (s : Store) where
  bury-Effect : Effect m.id actor_id action s true (bury m actor_id action warn s)
  bury-Effect =
      let exports = export_count m.id s.jobs in
      let (rows, added) =
        revocation_rows-Added actor_id m.id (revoked_count m.id s.database.grants)
          (deletion action actor_id m.id exports) s.audits
          (deletion_rows action actor_id m.id warn exports s.audits)
          (deletion_rows-Added action actor_id m.id warn exports s.audits) in
      (refl, (λ k. find_matter-archive k m.id s.matters), refl, rows, exports, added)

  decides-Effect :
      (held deletes : Bool) (n : ℕ)
      → Effect m.id actor_id action s (not held && deletes) (
          if held
          then (has_active_jobs n, s)
          else if deletes
          then bury m actor_id action warn s
          else (storage_delete_error, s))
  decides-Effect true deletes n = (refl, refl)
  decides-Effect false true n = bury-Effect
  decides-Effect false false n = (refl, refl)

  -- A matter is deleted exactly when each of its jobs is over or is an indexing job, and the storage
  -- deletes its files. Then its row is archived, every other matter's row and all jobs are as they
  -- were, and the deletion is on the audit log; otherwise no row has changed. What a failed storage has
  -- already deleted is not a row.
  pub tombstone_matter-fail_closed :
      Effect m.id actor_id action s
        (all_idle m.id s.jobs && delete_prefix m.created_by_id m.id)
        (tombstone_matter delete_prefix m actor_id action warn s)
  unfolding tombstone_matter
  tombstone_matter-fail_closed =
      let decided =
        decides-Effect (ltb 0 (active_count m.id s.jobs)) (delete_prefix m.created_by_id m.id)
          (active_count m.id s.jobs) in
      let held = active_count-all_idle m.id s.jobs in
      subst
        (λ b.
          Effect m.id actor_id action s (b && delete_prefix m.created_by_id m.id)
            (tombstone_matter delete_prefix m actor_id action warn s))
        (ground (arith, held)) decided

  tombstone_matter-bury :
      is_tombstoned (tombstone_matter delete_prefix m actor_id action warn s).0 ≡ true
      → tombstone_matter delete_prefix m actor_id action warn s ≡ bury m actor_id action warn s
  unfolding tombstone_matter
  tombstone_matter-bury h = ground (arith, h)

  -- After a matter is deleted no capability check in its scope passes, for anyone, and every check in
  -- the workspace's scope or in another matter's answers as it did.
  pub require_capability-tombstone :
      (subject : Subject) (scope : Option ℕ)
      → is_tombstoned (tombstone_matter delete_prefix m actor_id action warn s).0 ≡ true
      → (require_capability subject scope
          (tombstone_matter delete_prefix m actor_id action warn s).1.database).0
        ≡ (not (opt_eq scope (some m.id)) && (require_capability subject scope s.database).0)
  require_capability-tombstone subject scope h = rw (tombstone_matter-bury h) (
      require_capability-exists_grant subject scope (bury m actor_id action warn s).1.database
      ∙ exists_grant-revoke subject m.id scope s.database.grants
      ∙ ap (λ b. not (opt_eq scope (some m.id)) && b)
          (sym (require_capability-exists_grant subject scope s.database)))
