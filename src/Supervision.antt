-- ===== src/Supervision.antt =====
-- Human decisions on what the models produce: reviews by another person, and the author's sign-off
-- (backend/app/core/reviews.py and backend/app/core/signoff.py).
pub mod Review
mod Separated
mod Guarded
mod Decided
mod Tests
pub mod Signoff
mod Window
mod Visible
