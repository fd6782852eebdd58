-- ===== src/RateLimit.antt =====
-- The sliding window on the routes of the authentication surface (backend/app/core/rate_limit.py).
-- Addresses and routes are only compared, so they are numbers; a time is a number of microseconds.
pub mod Window
mod Tests
use legalise.Base.{
  ℕ, ◌+◌, ◌*◌, Bool, true, false, not, ◌&&◌, ◌||◌, List, [], ◌∷◌, Option, none, some, ltb, leb,
  ◌==◌, if◌then◌else◌,
}

-- `WINDOW_SECONDS`, in microseconds.
abbrev pub window : ℕ
window = 3_600_000_000

pub record AuthThrottleEvent : Type 0 where
  pub ip : ℕ
  pub route : ℕ
  pub created_at : ℕ

-- The rows, and the audit rows `auth.rate_limited`, newest first, by address and route.
pub record Throttle : Type 0 where
  pub events : List AuthThrottleEvent
  pub audits : List (ℕ × ℕ)

abbrev pub is_expired : ℕ → ℕ → AuthThrottleEvent → Bool
is_expired route now e = e.route == route && ltb (e.created_at + window) now

-- The opportunistic cleanup.
unfoldable pub cleanup : ℕ → ℕ → List AuthThrottleEvent → List AuthThrottleEvent
cleanup route now [] = []
cleanup route now (e ∷ es) =
    let rest = cleanup route now es in if is_expired route now e then rest else e ∷ rest

abbrev pub in_window : ℕ → ℕ → ℕ → AuthThrottleEvent → Bool
in_window route ip now e = e.route == route && e.ip == ip && leb now (e.created_at + window)

unfoldable pub count_attempts : ℕ → ℕ → ℕ → List AuthThrottleEvent → ℕ
count_attempts route ip now [] = 0
count_attempts route ip now (e ∷ es) =
    let rest = count_attempts route ip now es in if in_window route ip now e then rest + 1 else rest

-- `enforce_ip_rate_limit` at a resolved limit, address and time. A limit that is not positive is 0.
-- `true` is a return, `false` a 429; the state is committed either way.
unfoldable pub enforce_ip_rate_limit : ℕ → ℕ → ℕ → ℕ → Throttle → Bool × Throttle
unfolding cleanup count_attempts
enforce_ip_rate_limit limit route ip now s =
    if limit == 0
    then (true, s)
    else (let kept = cleanup route now s.events in
        let current = count_attempts route ip now kept in
        (
          ltb current limit,
          record {
            events = record { ip = ip; route = route; created_at = now } ∷ kept;
            audits = if current == limit then (ip, route) ∷ s.audits else s.audits;
          },
        ))
