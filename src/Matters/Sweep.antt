-- ===== src/Matters/Sweep.antt =====
-- backend/app/tools/retention_sweep.py: the deletion of the matters past their date. Days are
-- numbers. Each matter is a transaction of its own, rolled back where it raises.
use legalise.Base.{
  ℕ, ◌+◌, Bool, true, false, not, ◌&&◌, List, [], ◌∷◌, Option, none, some, ltb, leb, take,
  if◌then◌else◌,
}
use legalise.Matters.Lifecycle.{is_archived, Matter, Store, Outcome, tombstoned, tombstone_matter}

abbrev lapsed : ℕ → Option ℕ → Bool
lapsed today none = false
lapsed today (some day) = ltb day today

abbrev pub is_expired : ℕ → Matter → Bool
is_expired today m = lapsed today m.retention_until && not (is_archived m.status)

abbrev pub day_of : Option ℕ → ℕ
day_of none = 0
day_of (some day) = day

-- `ORDER BY retention_until ASC`
unfoldable pub insert_oldest : Matter → List Matter → List Matter
insert_oldest m [] = m ∷ []
insert_oldest m (n ∷ ns) =
    let rest = insert_oldest m ns in
    if leb (day_of m.retention_until) (day_of n.retention_until) then m ∷ n ∷ ns else n ∷ rest

unfoldable pub expired : ℕ → List Matter → List Matter
unfolding insert_oldest
expired today [] = []
expired today (m ∷ ms) =
    let rest = expired today ms in if is_expired today m then insert_oldest m rest else rest

abbrev pub limited : Option ℕ → List Matter → List Matter
limited none ms = ms
limited (some limit) ms = take limit ms

unfoldable pub select_expired : ℕ → Option ℕ → List Matter → List Matter
unfolding expired
select_expired today limit ms = limited limit (expired today ms)

-- The action `matter.retention.purged`.
abbrev pub retention_purged : ℕ
retention_purged = 1

abbrev pub purged_one : Outcome → ℕ
purged_one (tombstoned _ _) = 0
purged_one _ = 1

-- The loop, with the number of failures. An outcome that raises has left the store as it was.
unfoldable pub sweep_from : (ℕ → ℕ → Bool) → List Matter → Store → ℕ × Store
unfolding tombstone_matter
sweep_from delete_prefix [] s = (0, s)
sweep_from delete_prefix (m ∷ ms) s =
    let (outcome, s') = tombstone_matter delete_prefix m none retention_purged true s in
    let (failed, s'') = sweep_from delete_prefix ms s' in (purged_one outcome + failed, s'')

pub data ExitCode : Type 0 where
  exit_ok exit_partial : ExitCode

abbrev pub exit_of : ℕ × Store → ExitCode × Store
exit_of (failed, s) = (if ltb 0 failed then exit_partial else exit_ok, s)

unfoldable pub sweep : (ℕ → ℕ → Bool) → Bool → ℕ → Option ℕ → Store → ExitCode × Store
unfolding select_expired sweep_from
sweep delete_prefix apply today limit s =
    if not apply
    then (exit_ok, s)
    else exit_of (sweep_from delete_prefix (select_expired today limit s.matters) s)

-- `--limit`: the option that is not a positive number is refused by the parser.
unfoldable pub parse_limit : Option ℕ → Option (Option ℕ)
parse_limit none = some none
parse_limit (some limit) = if leb limit 0 then none else some (some limit)

-- The worker's daily task.
unfoldable pub scheduled_retention_sweep : (ℕ → ℕ → Bool) → Bool → ℕ → Option ℕ → Store → Store
unfolding sweep
scheduled_retention_sweep delete_prefix enabled today limit s =
    if not enabled then s else (sweep delete_prefix true today limit s).1
