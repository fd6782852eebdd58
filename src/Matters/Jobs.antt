-- ===== src/Matters/Jobs.antt =====
-- backend/app/core/jobs.py and the task run_job of backend/app/worker.py. The pipeline of a job is a
-- parameter: it returns, raises, breaks its session, or is cancelled by the worker's time limit. So are
-- the matters that either session finds, and Redis. Texts and payloads are numbers, and 0 is the
-- empty one.
use legalise.Base.{
  ℕ, suc, Bool, true, false, not, ◌&&◌, List, [], ◌∷◌, Option, none, some, ◌==◌, leb, if◌then◌else◌,
}

pub data Status : Type 0 where
  queued running succeeded failed cancelled : Status

-- JOB_ACTIVE_STATUSES
abbrev pub is_active : Status → Bool
is_active queued = true
is_active running = true
is_active _ = false

pub data Kind : Type 0 where
  export index : Kind
  unknown : ℕ → Kind

-- BACKGROUND_JOB_KINDS
abbrev pub is_background : Kind → Bool
is_background index = true
is_background _ = false

abbrev pub is_export : Kind → Bool
is_export export = true
is_export _ = false

pub record Job : Type 0 where
  pub id : ℕ
  pub matter_id : ℕ
  pub created_by_id : ℕ
  pub kind : Kind
  pub input_payload : ℕ
  pub status : Status
  pub stage : Option ℕ
  pub progress : Option ℕ
  pub started_at : Option ℕ
  pub finished_at : Option ℕ
  pub result_payload : Option ℕ
  pub error_code : Option ℕ
  pub error_message : Option ℕ

pub data Audit : Type 0 where
  -- `module.<kind>.job.queued`, with the job and the actor
  job_queued : ℕ → Kind → ℕ → Audit
  -- the status, and the error's code and message where they are not empty
  job_status : ℕ → Kind → ℕ → Status → Option ℕ → Option ℕ → Audit

-- Jobs and audits are newest first.
pub record Store : Type 0 where
  pub jobs : List Job
  pub audits : List Audit

abbrev pub counts : ℕ → Job → Bool
counts user_id j = j.created_by_id == user_id && is_active j.status && not (is_background j.kind)

-- `get_active_job_count` without the background kinds
unfoldable pub get_active_job_count : ℕ → List Job → ℕ
get_active_job_count user_id [] = 0
get_active_job_count user_id (j ∷ js) =
    let rest = get_active_job_count user_id js in if counts user_id j then suc rest else rest

pub data Created : Type 0 where
  created : Job → Created
  -- with the count and the limit
  active_job_limit_reached : ℕ → ℕ → Created

abbrev pub new_job : ℕ → ℕ → ℕ → Kind → ℕ → Job
new_job id matter_id created_by_id kind input_payload = record {
  id = id;
  matter_id = matter_id;
  created_by_id = created_by_id;
  kind = kind;
  input_payload = input_payload;
  status = queued;
  stage = none;
  progress = none;
  started_at = none;
  finished_at = none;
  result_payload = none;
  error_code = none;
  error_message = none;
}

-- `cap` is `get_limits().active_jobs`.
unfoldable pub create_job : ℕ → ℕ → ℕ → ℕ → Kind → ℕ → Store → Created × Store
unfolding get_active_job_count
create_job cap id matter_id created_by_id kind input_payload s =
    let active = get_active_job_count created_by_id s.jobs in
    let job = new_job id matter_id created_by_id kind input_payload in
    if not (is_background kind) && leb cap active
    then (active_job_limit_reached active cap, s)
    else (
      created job,
      record s { jobs = job ∷ s.jobs; audits = job_queued id kind created_by_id ∷ s.audits },
    )

-- The keyword arguments of `update_status`.
pub record Fields : Type 0 where
  pub stage : Option ℕ
  pub progress : Option ℕ
  pub result_payload : Option ℕ
  pub error_code : Option ℕ
  pub error_message : Option ℕ

abbrev pub no_fields : Fields
no_fields = record {
  stage = none;
  progress = none;
  result_payload = none;
  error_code = none;
  error_message = none;
}

-- `if value is not None: job.field = value`
abbrev pub or_old : Option ℕ → Option ℕ → Option ℕ
or_old none old = old
or_old (some new) old = some new

abbrev is_final : Status → Bool
is_final succeeded = true
is_final failed = true
is_final cancelled = true
is_final _ = false

abbrev is_running : Status → Bool
is_running running = true
is_running _ = false

-- `if error_code:`
abbrev if_given : Option ℕ → Option ℕ
if_given none = none
if_given (some n) = if n == 0 then none else some n

abbrev pub updated : ℕ → Status → Fields → Job → Job
updated now status f j = record j {
  status = status;
  started_at = if is_running status then some now else j.started_at;
  finished_at = if is_final status then some now else j.finished_at;
  stage = or_old f.stage j.stage;
  progress = or_old f.progress j.progress;
  result_payload = or_old f.result_payload j.result_payload;
  error_code = or_old f.error_code j.error_code;
  error_message = or_old f.error_message j.error_message;
}

unfoldable pub find_job : ℕ → List Job → Option Job
find_job id [] = none
find_job id (j ∷ js) = if j.id == id then some j else find_job id js

unfoldable pub set_job : Job → List Job → List Job
set_job new [] = []
set_job new (j ∷ js) = let rest = set_job new js in if j.id == new.id then new ∷ js else j ∷ rest

unfoldable pub update_status : ℕ → Job → Status → Fields → Store → Job × Store
unfolding set_job
update_status now j status f s =
    let j' = updated now status f j in
    (
      j',
      record s {
        jobs = set_job j' s.jobs;
        audits =
            job_status j.id j.kind j.created_by_id status (if_given f.error_code)
              (if_given f.error_message)
            ∷ s.audits;
      },
    )

unfoldable pub update_stage : Job → ℕ → Option ℕ → Store → Store
unfolding set_job
update_stage j stage progress s = record s {
  jobs = set_job (record j { stage = some stage; progress = or_old progress j.progress }) s.jobs;
}

-- The error codes of the source.
abbrev pub enqueue_failed : ℕ
enqueue_failed = 1

abbrev pub matter_not_found : ℕ
matter_not_found = 2

abbrev pub pipeline_error : ℕ
pipeline_error = 3

-- Whether the queue took the id, or its exception; `false` is the 503.
unfoldable pub enqueue_or_mark_failed : Option ℕ → ℕ → Job → Store → Bool × Store
unfolding update_status
enqueue_or_mark_failed none now j s = (true, s)
enqueue_or_mark_failed (some message) now j s = (
  false,
  (update_status now j failed
      (record no_fields { error_code = some enqueue_failed; error_message = some message }) s).1,
)

pub data Pipeline : Type 0 where
  returns : ℕ → Pipeline
  raises : ℕ → Pipeline
  -- an exception after which the session, with its failed transaction, takes no statement
  breaks : ℕ → Pipeline
  -- CancelledError, which `except Exception` lets through
  times_out : Pipeline

-- the text of the ValueError
abbrev unknown_kind : ℕ
unknown_kind = 1

-- `_dispatch`, with the two pipelines
abbrev pub dispatch : (Job → Pipeline) → (Job → Pipeline) → Kind → Job → Pipeline
dispatch run_export run_index export j = run_export j
dispatch run_export run_index index j = run_index j
dispatch run_export run_index (unknown _) j = raises unknown_kind

pub data Ran : Type 0 where
  finished row_vanished not_visible interrupted : Ran
  -- the AttributeError of `job.matter_id`, where the second session does not find the job
  no_attribute : Ran
  -- the exception of `update_status` on the broken session
  unsettled : Ran

-- `stage="complete"`
abbrev complete_stage : ℕ
complete_stage = 1

abbrev pub settle : ℕ → Job → Pipeline → Store → Ran × Store
settle now j (returns payload) s = (
  finished,
  (update_status now j succeeded
      (record no_fields {
        stage = some complete_stage;
        progress = some 100;
        result_payload = some payload;
      })
      s).1,
)
settle now j (raises message) s = (
  finished,
  (update_status now j failed
      (record no_fields { error_code = some pipeline_error; error_message = some message }) s).1,
)
settle now j (breaks message) s = (unsettled, s)
settle now j times_out s = (interrupted, s)

-- The second session reads both rows again.
abbrev pub run_pipeline : (ℕ → Bool) → ℕ → (Job → Pipeline) → Option Job → Store → Ran × Store
run_pipeline still_has now pipeline none s = (no_attribute, s)
run_pipeline still_has now pipeline (some j) s =
    if not (still_has j.matter_id) then (row_vanished, s) else settle now j (pipeline j) s

-- The matters that the first session finds, and those that the second does.
abbrev pub run_found :
    (ℕ → Bool) → (ℕ → Bool) → ℕ → ℕ → (Job → Pipeline) → Option Job → Store → Ran × Store
run_found has_matter still_has start now pipeline none s = (not_visible, s)
run_found has_matter still_has start now pipeline (some j) s =
    if not (has_matter j.matter_id)
    then (
      finished,
      (update_status start j failed
          (record no_fields {
            error_code = some matter_not_found;
            error_message = some j.matter_id;
          })
          s).1,
    )
    else (let s' = (update_status start j running no_fields s).1 in
        run_pipeline still_has now pipeline (find_job j.id s'.jobs) s')

-- The task for the id that the queue delivers, from the time `start` to the time `now`.
unfoldable pub run_job :
    (ℕ → Bool) → (ℕ → Bool) → ℕ → ℕ → (Job → Pipeline) → (Job → Pipeline) → ℕ → Store → Ran × Store
unfolding find_job update_status
run_job has_matter still_has start now run_export run_index id s =
    run_found has_matter still_has start now (λ j. dispatch run_export run_index j.kind j)
      (find_job id s.jobs) s
