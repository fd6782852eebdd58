-- ===== src/RateLimit/Window.antt =====
-- No address gets more than the limit within any hour.
use legalise.Base.{
  ℕ, ◌≤◌, ◌<◌, ◌≡◌, refl, Bool, true, false, List, [], ◌∷◌, ltb, ◌==◌, if◌then◌else◌, arith,
}
use legalise.RateLimit.{AuthThrottleEvent, Throttle, cleanup, count_attempts, enforce_ip_rate_limit}

-- The attempts that got through, after one more.
abbrev pub logged : ℕ → ℕ → ℕ → List AuthThrottleEvent → Bool → List AuthThrottleEvent
logged route ip now through allowed =
    if allowed then record { ip = ip; route = route; created_at = now } ∷ through else through

-- The attempts on throttled routes, under the limits of the routes, with the time of the last one
-- and the attempts that got through, newest first. The clock does not go back.
pub data Served (limit : ℕ → ℕ) : ℕ → List AuthThrottleEvent → Throttle → Type 0 where
  start : Served limit 0 [] (record { events = []; audits = [] })
  attempt :
      {last : ℕ} {through : List AuthThrottleEvent} {s : Throttle} (route ip now : ℕ)
      → Served limit last through s
      → last ≤ now
      → 1 ≤ limit route
      → Served limit now
          (logged route ip now through (enforce_ip_rate_limit (limit route) route ip now s).0)
          (enforce_ip_rate_limit (limit route) route ip now s).1

-- A cleanup now removes nothing from a window that starts later.
count-cleanup :
    (cleaned now route ip later : ℕ) (es : List AuthThrottleEvent)
    → now ≤ later
    → count_attempts route ip later (cleanup cleaned now es) ≡ count_attempts route ip later es
unfolding count_attempts cleanup
count-cleanup cleaned now route ip later [] h = refl
count-cleanup cleaned now route ip later (e ∷ es) h =
    ground (arith, count-cleanup cleaned now route ip later es h)

-- Every attempt that got through is still counted.
Counted : ℕ → List AuthThrottleEvent → Throttle → Type 0
Counted last through s =
    (route ip now : ℕ)
    → last ≤ now
    → count_attempts route ip now through ≤ count_attempts route ip now s.events

count-cons :
    (route ip now : ℕ) (e : AuthThrottleEvent) (a b : List AuthThrottleEvent) (allowed : Bool)
    → count_attempts route ip now a ≤ count_attempts route ip now b
    → count_attempts route ip now (if allowed then e ∷ a else a)
      ≤ count_attempts route ip now (e ∷ b)
unfolding count_attempts
count-cons route ip now e a b true h = ground (arith, h)
count-cons route ip now e a b false h = ground (arith, h)

attempt-Counted :
    (limit route ip last now : ℕ) (through : List AuthThrottleEvent) (s : Throttle)
    → Counted last through s
    → last ≤ now
    → 1 ≤ limit
    → Counted now
        (logged route ip now through (enforce_ip_rate_limit limit route ip now s).0)
        (enforce_ip_rate_limit limit route ip now s).1
unfolding Counted enforce_ip_rate_limit
attempt-Counted limit route ip last now through s counted h k r i t later =
    let throttled : (limit == 0) ≡ false = ground (arith, k) in
    rw throttled (
      count-cons r i t (record { ip = ip; route = route; created_at = now }) through
        (cleanup route now s.events)
        (ltb (count_attempts route ip now (cleanup route now s.events)) limit)
        (omega (
          arith,
          counted r i t (omega (arith, h, later)),
          count-cleanup route now r i t s.events later,
        )))

Served-Counted :
    {limit : ℕ → ℕ} {last : ℕ} {through : List AuthThrottleEvent} {s : Throttle}
    → Served limit last through s
    → Counted last through s
unfolding Counted
Served-Counted start = λ route ip now h. omega arith
Served-Counted {limit} (attempt {last} {through} {s} route ip now served h k) =
    attempt-Counted (limit route) route ip last now through s (Served-Counted served) h k

below : (m limit : ℕ) → ltb m limit ≡ true → (n : ℕ) → n ≤ m → n < limit
below m limit h n k = ground (arith, h, k)

-- On a throttled route, an attempt that gets through is, together with those that got through in
-- the hour before it from the same address on the same route, within the limit.
pub enforce_ip_rate_limit-bounded :
    {limit : ℕ → ℕ} {last : ℕ} {through : List AuthThrottleEvent} {s : Throttle} (route ip now : ℕ)
    → Served limit last through s
    → last ≤ now
    → 1 ≤ limit route
    → (enforce_ip_rate_limit (limit route) route ip now s).0 ≡ true
    → count_attempts route ip now through < limit route
unfolding enforce_ip_rate_limit Counted
enforce_ip_rate_limit-bounded {limit} {last} {through} {s} route ip now served h k passed =
    let throttled : (limit route == 0) ≡ false = ground (arith, k) in
    below (count_attempts route ip now (cleanup route now s.events)) (limit route)
      (rw (throttled, enforce_ip_rate_limit) at passed) (count_attempts route ip now through)
      (omega (
        arith,
        Served-Counted served route ip now h,
        count-cleanup route now route ip now s.events (omega arith),
      ))
