-- ===== src/Matters/Settled.antt =====
-- The limit on active jobs, and the end of every job of Matters/Jobs.antt that a worker takes.
use legalise.Base.{
  ℕ, ◌+◌, ◌≡◌, refl, sym, subst, Bool, true, false, not, ◌&&◌, ◌||◌, List, [], ◌∷◌, some, ◌==◌, ltb,
  if◌then◌else◌, Bool-cases, inl, inr, arith,
}
use legalise.Matters.Jobs.{
  Status, running, succeeded, failed, Kind, is_background, Job, Store, get_active_job_count,
  Created, created, create_job, Fields, no_fields, updated, find_job, set_job, update_status,
  Pipeline, returns, raises, breaks, times_out, Ran, finished, row_vanished, unsettled, interrupted,
  dispatch, settle, run_found, run_job,
}

abbrev pub is_created : Created → Bool
is_created (created _) = true
is_created _ = false

-- A job is created exactly when it is in the background or its user has fewer active interactive
-- jobs than the limit; only a created interactive job raises the number, and only its user's.
pub create_job-get_active_job_count :
    (cap id matter_id created_by_id : ℕ) (kind : Kind) (input_payload : ℕ) (s : Store) (user_id : ℕ)
    → let result = create_job cap id matter_id created_by_id kind input_payload s in
      (is_created result.0
        ≡ (is_background kind || ltb (get_active_job_count created_by_id s.jobs) cap))
      × (get_active_job_count user_id result.1.jobs
          ≡ get_active_job_count user_id s.jobs
            + (if is_created result.0 && not (is_background kind) && (created_by_id == user_id)
                then 1
                else 0))
unfolding create_job get_active_job_count
create_job-get_active_job_count cap id matter_id created_by_id kind input_payload s user_id =
    ground arith

find_job-set_job :
    (id : ℕ) (new : Job) (js : List Job) {j : Job}
    → find_job id js ≡ some j
    → new.id ≡ id
    → find_job id (set_job new js) ≡ some new
unfolding find_job set_job
find_job-set_job id new [] h same = cc
find_job-set_job id new (k ∷ js) {j = j} h same =
    ground (arith, same, find_job-set_job id new js {j = j})

find_job-set_apart :
    (id : ℕ) (new : Job) (js : List Job)
    → (new.id == id) ≡ false
    → find_job id (set_job new js) ≡ find_job id js
unfolding find_job set_job
find_job-set_apart id new [] apart = refl
find_job-set_apart id new (k ∷ js) apart = ground (arith, apart, find_job-set_apart id new js)

id_of_find_job : (id : ℕ) (js : List Job) {j : Job} → find_job id js ≡ some j → j.id ≡ id
unfolding find_job
id_of_find_job id [] h = cc
id_of_find_job id (k ∷ js) {j = j} h = ground (arith, id_of_find_job id js {j = j})

-- Where a job stands after its task, by whether its matter exists at first and when the pipeline is
-- to begin, and what its pipeline does.
abbrev pub settled_status : Bool → Bool → Pipeline → Status
settled_status false _ _ = failed
settled_status true false _ = running
settled_status true true (returns _) = succeeded
settled_status true true (raises _) = failed
settled_status true true (breaks _) = running
settled_status true true times_out = running

-- How the task itself ends.
abbrev pub ends : Bool → Bool → Pipeline → Ran
ends false _ _ = finished
ends true false _ = row_vanished
ends true true (returns _) = finished
ends true true (raises _) = finished
ends true true (breaks _) = unsettled
ends true true times_out = interrupted

update_status-found :
    (now : ℕ) (id : ℕ) (j : Job) (status : Status) (f : Fields) (s : Store)
    → find_job id s.jobs ≡ some j
    → find_job id (update_status now j status f s).1.jobs ≡ some (updated now status f j)
unfolding update_status
update_status-found now id j status f s h =
    find_job-set_job id (updated now status f j) s.jobs h (id_of_find_job id s.jobs h)

update_status-settled :
    (now id : ℕ) (j : Job) (status : Status) (f : Fields) (s : Store)
    → find_job id s.jobs ≡ some j
    → (j' : Job) × (find_job id (update_status now j status f s).1.jobs ≡ some j')
      × (j'.status ≡ status)
update_status-settled now id j status f s h =
    (updated now status f j, update_status-found now id j status f s h, refl)

-- The job as its task leaves it, and how the task ends.
abbrev pub Leaves : ℕ → Status → Ran → Ran × Store → Type 0
Leaves id status ran result =
    (result.0 ≡ ran) × (j' : Job) × (find_job id result.1.jobs ≡ some j') × (j'.status ≡ status)

settle-Leaves :
    (now id : ℕ) (j : Job) (p : Pipeline) (s : Store)
    → find_job id s.jobs ≡ some j
    → j.status ≡ running
    → Leaves id (settled_status true true p) (ends true true p) (settle now j p s)
settle-Leaves now id j (returns payload) s h same =
    let (j', found, is) = update_status-settled now id j succeeded _ s h in (refl, j', found, is)
settle-Leaves now id j (raises message) s h same =
    let (j', found, is) = update_status-settled now id j failed _ s h in (refl, j', found, is)
settle-Leaves now id j (breaks message) s h same = (refl, j, h, same)
settle-Leaves now id j times_out s h same = (refl, j, h, same)

run_found-Leaves :
    (has_matter still_has : ℕ → Bool) (start now id : ℕ) (pipeline : Job → Pipeline) (j : Job)
    (s : Store)
    → find_job id s.jobs ≡ some j
    → let p = pipeline (updated start running no_fields j) in
      Leaves id
        (settled_status (has_matter j.matter_id) (still_has j.matter_id) p)
        (ends (has_matter j.matter_id) (still_has j.matter_id) p)
        (run_found has_matter still_has start now pipeline (some j) s)
run_found-Leaves has_matter still_has start now id pipeline j s h =
    elim (Bool-cases (has_matter j.matter_id)) [
      | inr gone ↦
          let (j', found, is) = update_status-settled start id j failed _ s h in
          rw (gone) (refl, j', found, is)
      | inl there ↦
          let j1 = updated start running no_fields j in
          let s1 = (update_status start j running no_fields s).1 in
          let h1 : find_job id s1.jobs ≡ some j1 =
            update_status-found start id j running no_fields s h in
          let again : find_job j.id s1.jobs ≡ some j1 =
            subst (λ n. find_job n s1.jobs ≡ some j1) (sym (id_of_find_job id s.jobs h)) h1 in
          elim (Bool-cases (still_has j.matter_id)) [
            | inr vanished ↦ rw (there, again, vanished) (refl, j1, h1, refl)
            | inl still ↦
                rw (there, again, still) (settle-Leaves now id j1 (pipeline j1) s1 h1 refl)
          ]
    ]

-- Every job that a worker takes ends as follows. It has failed when its matter is gone, and otherwise
-- it has succeeded or failed as its pipeline returns or raises. It stays running exactly when the
-- matter vanishes before the pipeline begins, the pipeline breaks its session, or the worker's time
-- limit cancels it; in the first of these cases the task returns as if all were well, in the others it
-- raises.
pub run_job-status :
    (has_matter still_has : ℕ → Bool) (start now : ℕ) (run_export run_index : Job → Pipeline)
    (id : ℕ) (j : Job) (s : Store)
    → find_job id s.jobs ≡ some j
    → let p = dispatch run_export run_index j.kind (updated start running no_fields j) in
      Leaves id
        (settled_status (has_matter j.matter_id) (still_has j.matter_id) p)
        (ends (has_matter j.matter_id) (still_has j.matter_id) p)
        (run_job has_matter still_has start now run_export run_index id s)
unfolding run_job
run_job-status has_matter still_has start now run_export run_index id j s h = rw (h) (
    run_found-Leaves has_matter still_has start now id (λ k. dispatch run_export run_index k.kind k)
      j s h)
