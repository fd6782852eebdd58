-- ===== src/Matters/Tests.antt =====
-- Two matters past their date, one of which has an active export.
use legalise.Base.{
  ℕ, ◌+◌, ◌≡◌, refl, Bool, true, false, not, ◌&&◌, ◌||◌, [], ◌∷◌, some, ◌==◌, ltb, opt_eq, map,
  none, member, All, if◌then◌else◌,
}
use legalise.Capabilities.{Grant, Subject, matter, require_capability}
use legalise.Matters.Jobs
use legalise.Matters.Jobs.{
  Job, Pipeline, create_job, get_active_job_count, new_job, run_job, find_job, dispatch, updated,
  no_fields, enqueue_or_mark_failed, update_status, set_job,
}
use legalise.Matters.Settled.{Leaves, is_created, create_job-get_active_job_count, run_job-status}
use legalise.Matters.Lifecycle.{Matter, opened, Store, tombstone_matter, active_count}
use legalise.Matters.Purged.{Effect, tombstone_matter-fail_closed, require_capability-tombstone}
use legalise.Matters.Sweep.{sweep, select_expired, exit_partial, sweep_from}
use legalise.Matters.Swept.{Lapsed, Chooses, Archives, sweep-Archives}

abbrev old : Matter
old = record { id = 1; slug = 11; created_by_id = 7; status = opened; retention_until = some 10 }

abbrev newer : Matter
newer = record { id = 2; slug = 12; created_by_id = 7; status = opened; retention_until = some 20 }

abbrev queued_export : Job
queued_export = new_job 30 1 7 Jobs.export 0

abbrev reader : Subject
reader = record { user_id = 7; plugin = 2; skill = 3; capability = 4 }

abbrev grant_of : ℕ → Grant
grant_of id = record {
  user_id = 7;
  plugin = 2;
  skill = 3;
  capability = 4;
  scope_type = matter;
  scope_id = some id;
}

abbrev two : Store
two = record {
  matters = newer ∷ old ∷ [];
  jobs = queued_export ∷ [];
  database = record { grants = grant_of 2 ∷ grant_of 1 ∷ []; audits = [] };
  audits = [];
}

abbrev deletes : ℕ → ℕ → Bool
deletes owner id = true

abbrev queue : Jobs.Store
queue = record { jobs = queued_export ∷ []; audits = [] }

abbrev zips : Job → Pipeline
zips j = Jobs.returns 5

abbrev exists : ℕ → Bool
exists id = true

create_job-get_active_job_count_example :
    let result = create_job 1 31 2 7 Jobs.export 0 queue in
    (is_created result.0 ≡ (false || ltb (get_active_job_count 7 queue.jobs) 1))
    × (get_active_job_count 7 result.1.jobs
        ≡ get_active_job_count 7 queue.jobs
          + (if is_created result.0 && not false && (7 == 7) then 1 else 0))
create_job-get_active_job_count_example =
    create_job-get_active_job_count 1 31 2 7 Jobs.export 0 queue 7

run_job-status_example :
    Leaves 30 Jobs.succeeded Jobs.finished (run_job exists exists 100 200 zips zips 30 queue)
unfolding find_job
run_job-status_example = run_job-status exists exists 100 200 zips zips 30 queued_export queue refl

-- A job whose id could not be queued has failed.
not_queued :
    get_active_job_count 7 (enqueue_or_mark_failed (some 9) 100 queued_export queue).1.jobs ≡ 0
unfolding get_active_job_count enqueue_or_mark_failed update_status set_job
not_queued = refl

tombstone_matter-fail_closed_example :
    Effect 2 (some 7) 2 two true (tombstone_matter deletes newer (some 7) 2 true two)
tombstone_matter-fail_closed_example =
    tombstone_matter-fail_closed deletes newer (some 7) 2 true two

require_capability-tombstone_example :
    (require_capability reader
      (some 2)
      (tombstone_matter deletes newer (some 7) 2 true two).1.database).0
    ≡ (not (opt_eq (some 2) (some 2)) && (require_capability reader (some 2) two.database).0)
unfolding tombstone_matter active_count
require_capability-tombstone_example =
    require_capability-tombstone deletes newer (some 7) 2 true two reader (some 2) refl

-- Under a limit of one the matter that cannot be deleted is chosen every time, and the other one is
-- not reached.
sweep_stuck : sweep deletes true 50 (some 1) two ≡ (exit_partial, two)
unfolding sweep select_expired sweep_from tombstone_matter active_count
sweep_stuck = refl

sweep-Archives_example :
    let chosen = select_expired 50 none two.matters in
    All (Lapsed 50) chosen
    × Chooses 50 none chosen two.matters
    × Archives
        (λ x. true && member x (map (λ m. m.id) chosen))
        two.matters
        (sweep deletes true 50 none two).1.matters
sweep-Archives_example = sweep-Archives deletes true 50 none two
