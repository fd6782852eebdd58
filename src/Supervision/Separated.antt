-- ===== src/Supervision/Separated.antt =====
-- What holds of the reviews of Supervision/Review.antt after any calls.
use legalise.Base.Text.{Text}
use legalise.Base.{
  ℕ, suc, ◌≤◌, ◌≡◌, ◌≢◌, refl, ◌⊎◌, inl, inr, Bool, true, false, ◌&&◌, ◌||◌, List, [], ◌∷◌, Option,
  none, some, ◌==◌, if◌then◌else◌, All, arith, Bool-cases,
}
use legalise.Supervision.Review.{
  Artifact, User, is_pending, Review, Decision, Audit, review_decided, Store, request_review,
  decide_review, find_review, has_pending, update_review, find_artifact,
}

pub data Call : Type 0 where
  request : ℕ → ℕ → Artifact → User → Call
  -- the review by its id, which the endpoint loads
  decide : ℕ → ℕ → User → Decision → Option Text → Call

module _ (sha256 : Text → Text) (strips : ℕ → Bool) where
  abbrev pub decide_loaded : Option Review → ℕ → User → Decision → Option Text → Store → Store
  decide_loaded none _ _ _ _ s = s
  decide_loaded (some r) decided_at user decision text s =
      (decide_review strips decided_at r user decision text s).1

  unfoldable pub step : Call → Store → Store
  step (request id requested_at a user) s = (request_review sha256 id requested_at a user s).1
  step (decide id decided_at user decision text) s =
      decide_loaded (find_review id s.reviews) decided_at user decision text s

  unfoldable pub run : List Call → Store → Store
  unfolding step
  run [] s = s
  run (c ∷ cs) s = run cs (step c s)

abbrev pub pending_count : ℕ → List Review → ℕ
pending_count artifact_id [] = 0
pending_count artifact_id (r ∷ rs) =
    if r.artifact_id == artifact_id && is_pending r.state
    then suc (pending_count artifact_id rs)
    else pending_count artifact_id rs

-- An audit row of the review says that this user decided it as an overriding superuser.
unfoldable pub has_override : ℕ → ℕ → List Audit → Bool
has_override review_id user_id [] = false
has_override review_id user_id (review_decided r u _ _ true ∷ more) =
    (r == review_id && u == user_id) || has_override review_id user_id more
has_override review_id user_id (_ ∷ more) = has_override review_id user_id more

-- The user neither requested the review nor created its artifact.
abbrev pub Apart : ℕ → Review → List Artifact → Type 0
Apart user_id r artifacts =
    (user_id ≢ r.requested_by_id)
    × ((a : Artifact)
        → find_artifact r.artifact_id artifacts ≡ some a
        → a.created_by_id ≢ some user_id)

-- The call is made by a user whose standing is the one that the accounts hold.
abbrev pub Known : (ℕ → Bool) → Call → Type 0
Known supers (request _ _ _ _) = Unit
Known supers (decide _ _ user _ _) = supers user.id ≡ user.is_superuser

-- A decided review was decided by another person than its author and its requester, or by a
-- superuser whose override is on its audit row; a pending review has no decision.
abbrev pub Separated : (ℕ → Bool) → List Artifact → List Audit → Review → Option ℕ → Bool → Type 0
Separated supers artifacts audits r none is_open = is_open ≡ true
Separated supers artifacts audits r (some user_id) is_open =
    (is_open ≡ false)
    × (Apart user_id r artifacts
        ⊎ ((supers user_id ≡ true) × (has_override r.id user_id audits ≡ true)))

abbrev pub IsSeparated : (ℕ → Bool) → List Artifact → List Audit → Review → Type 0
IsSeparated supers artifacts audits r =
    Separated supers artifacts audits r r.decided_by_id (is_pending r.state)

abbrev pub Guarded : (ℕ → Bool) → Store → Type 0
Guarded supers s =
    ((artifact_id : ℕ) → pending_count artifact_id s.reviews ≤ 1)
    × All (IsSeparated supers s.artifacts s.audits) s.reviews

pub has_pending-count :
    (artifact_id : ℕ) (rs : List Review)
    → has_pending artifact_id rs ≡ false
    → pending_count artifact_id rs ≡ 0
unfolding has_pending
has_pending-count artifact_id [] h = refl
has_pending-count artifact_id (r ∷ rs) h = ground (arith, has_pending-count artifact_id rs)

pub update-count :
    (artifact_id : ℕ) (new : Review) (rs : List Review)
    → is_pending new.state ≡ false
    → pending_count artifact_id (update_review new rs) ≤ pending_count artifact_id rs
unfolding update_review
update-count artifact_id new [] h = omega arith
update-count artifact_id new (r ∷ rs) h = ground (arith, update-count artifact_id new rs h)

pub has_override-more :
    (review_id user_id : ℕ) (row : Audit) (audits : List Audit)
    → has_override review_id user_id audits ≡ true
    → has_override review_id user_id (row ∷ audits) ≡ true
unfolding has_override
has_override-more review_id user_id (Audit.review_requested _ _ _) audits h = h
has_override-more review_id user_id (review_decided r u _ _ true) audits h = ground (arith, h)
has_override-more review_id user_id (review_decided r u _ _ false) audits h = h

pub Separated-more :
    (supers : ℕ → Bool) (artifacts : List Artifact) (row : Audit) (audits : List Audit) (r : Review)
    (by : Option ℕ) (is_open : Bool)
    → Separated supers artifacts audits r by is_open
    → Separated supers artifacts (row ∷ audits) r by is_open
Separated-more supers artifacts row audits r none is_open h = h
Separated-more supers artifacts row audits r (some u) is_open (closed, inl other) =
    (closed, inl other)
Separated-more supers artifacts row audits r (some u) is_open (closed, inr (super, said)) =
    (closed, inr (super, has_override-more r.id u row audits said))

pub All-more :
    (supers : ℕ → Bool) (artifacts : List Artifact) (row : Audit) (audits : List Audit)
    (rs : List Review)
    → All (IsSeparated supers artifacts audits) rs
    → All (IsSeparated supers artifacts (row ∷ audits)) rs
All-more supers artifacts row audits [] h = tt
All-more supers artifacts row audits (r ∷ rs) h = (
  Separated-more supers artifacts row audits r r.decided_by_id (is_pending r.state) h.0,
  All-more supers artifacts row audits rs h.1,
)

pub All-update :
    (supers : ℕ → Bool) (artifacts : List Artifact) (audits : List Audit) (new : Review)
    (rs : List Review)
    → IsSeparated supers artifacts audits new
    → All (IsSeparated supers artifacts audits) rs
    → All (IsSeparated supers artifacts audits) (update_review new rs)
unfolding update_review
All-update supers artifacts audits new [] fit h = tt
All-update supers artifacts audits new (r ∷ rs) fit h = elim (Bool-cases (r.id == new.id)) [
  | inl same ↦ rw (same) (fit, h.1)
  | inr apart ↦ rw (apart) (h.0, All-update supers artifacts audits new rs fit h.1)
]
