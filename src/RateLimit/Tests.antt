-- ===== src/RateLimit/Tests.antt =====
-- A limit of two attempts.
use legalise.Base.{ℕ, ◌<◌, ◌≡◌, refl, true, false, [], ◌∷◌, length, arith}
use legalise.RateLimit.{Throttle, count_attempts, enforce_ip_rate_limit}
use legalise.RateLimit.Window.{Served, start, attempt, enforce_ip_rate_limit-bounded}

abbrev two : ℕ → ℕ
two route = 2

abbrev fresh : Throttle
fresh = record { events = []; audits = [] }

abbrev tried : ℕ → Throttle → Throttle
tried now s = (enforce_ip_rate_limit 2 1 7 now s).1

-- Of four attempts within the hour two are refused, with one audit row; after more than an hour
-- without any, the next one passes.
window_slides :
    ((enforce_ip_rate_limit 2 1 7 30 (tried 20 (tried 10 fresh))).0 ≡ false)
    × (length (tried 40 (tried 30 (tried 20 (tried 10 fresh)))).audits ≡ 1)
    × ((enforce_ip_rate_limit 2 1 7 3_600_000_041
          (tried 40 (tried 30 (tried 20 (tried 10 fresh))))).0
        ≡ true)
unfolding enforce_ip_rate_limit
window_slides = (refl, refl, refl)

once-Served : Served two 10 (record { ip = 7; route = 1; created_at = 10 } ∷ []) (tried 10 fresh)
unfolding enforce_ip_rate_limit
once-Served = attempt 1 7 10 start (omega arith) (omega arith)

second_passes : (enforce_ip_rate_limit 2 1 7 20 (tried 10 fresh)).0 ≡ true
unfolding enforce_ip_rate_limit
second_passes = refl

enforce_ip_rate_limit-bounded_example :
    count_attempts 1 7 20 (record { ip = 7; route = 1; created_at = 10 } ∷ []) < 2
enforce_ip_rate_limit-bounded_example =
    enforce_ip_rate_limit-bounded 1 7 20 once-Served (omega arith) (omega arith) second_passes
