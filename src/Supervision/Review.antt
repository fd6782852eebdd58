-- ===== src/Supervision/Review.antt =====
-- backend/app/core/reviews.py: a review is requested on an artifact, and decided once. Identifiers
-- and times are numbers that the caller supplies, SHA-256 of the stored bytes is a parameter, and so
-- is the test for the characters that `str.strip` removes.
use legalise.Base.Text.{Text}
use legalise.Base.{
  ℕ, Bool, true, false, not, ◌&&◌, ◌||◌, List, [], ◌∷◌, Option, none, some, ◌==◌, opt_eq,
  if◌then◌else◌,
}

pub data Kind : Type 0 where
  findings_pack skill_response chat_draft : Kind
  other : ℕ → Kind

-- REVIEW_ELIGIBLE_KINDS
abbrev pub is_eligible : Kind → Bool
is_eligible (Kind.other _) = false
is_eligible _ = true

-- MatterArtifact; `bytes` is `none` where the object is missing from the storage.
pub record Artifact : Type 0 where
  pub id : ℕ
  pub matter_id : ℕ
  pub module_id : ℕ
  pub kind : Kind
  -- `none` where nobody is recorded
  pub created_by_id : Option ℕ
  pub bytes : Option Text

pub record User : Type 0 where
  pub id : ℕ
  pub is_superuser : Bool

pub data State : Type 0 where
  pending approved rejected changes_requested overridden : State

abbrev pub is_pending : State → Bool
is_pending pending = true
is_pending _ = false

pub record Review : Type 0 where
  pub id : ℕ
  pub matter_id : ℕ
  pub artifact_id : ℕ
  pub kind : Kind
  pub artifact_hash : Text
  pub state : State
  pub requested_by_id : ℕ
  pub requested_at : ℕ
  pub decided_by_id : Option ℕ
  pub decided_at : Option ℕ
  pub note : Option Text

pub data Decision : Type 0 where
  approve reject request_changes override : Decision
  unknown : ℕ → Decision

-- The audit rows, with the payload's fields that are not the review's own.
pub data Audit : Type 0 where
  review_requested : ℕ → ℕ → Text → Audit
  -- the review, the actor, the new state, the note and `self_review_superuser_override`
  review_decided : ℕ → ℕ → State → Option Text → Bool → Audit

-- Reviews and audits are newest first.
pub record Store : Type 0 where
  pub artifacts : List Artifact
  pub reviews : List Review
  pub audits : List Audit

pub data Outcome : Type 0 where
  returned : Review → Outcome
  review_not_eligible review_already_pending artifact_bytes_unavailable : Outcome
  -- the database's, for an id that is taken
  integrity_error : Outcome
  invalid_review_decision invalid_review_transition note_required reviewer_is_author : Outcome

abbrev pub keep_front : ℕ → Text → Bool → Text
keep_front c [] true = []
keep_front c text _ = c ∷ text

module _ (strips : ℕ → Bool) where
  unfoldable pub lstrip : Text → Text
  lstrip [] = []
  lstrip (c ∷ text) = let rest = lstrip text in if strips c then rest else c ∷ text

  unfoldable pub rstrip : Text → Text
  rstrip [] = []
  rstrip (c ∷ text) = keep_front c (rstrip text) (strips c)

  -- `(note or "").strip()`
  unfoldable pub clean : Option Text → Text
  unfolding lstrip rstrip
  clean none = []
  clean (some text) = rstrip (lstrip text)

abbrev pub is_empty : Text → Bool
is_empty [] = true
is_empty (_ ∷ _) = false

-- `clean_note or None`
abbrev pub or_none : Text → Option Text
or_none [] = none
or_none (c ∷ text) = some (c ∷ text)

-- `_DECISION_MAP`: the state and whether a note is required.
abbrev pub decision_map : Decision → Option (State × Bool)
decision_map approve = some (approved, false)
decision_map reject = some (rejected, true)
decision_map request_changes = some (changes_requested, true)
decision_map override = some (overridden, true)
decision_map (unknown _) = none

unfoldable pub find_artifact : ℕ → List Artifact → Option Artifact
find_artifact id [] = none
find_artifact id (a ∷ more) = if a.id == id then some a else find_artifact id more

-- An open review of the artifact exists.
unfoldable pub has_pending : ℕ → List Review → Bool
has_pending artifact_id [] = false
has_pending artifact_id (r ∷ rs) =
    (r.artifact_id == artifact_id && is_pending r.state) || has_pending artifact_id rs

unfoldable pub find_review : ℕ → List Review → Option Review
find_review id [] = none
find_review id (r ∷ rs) = if r.id == id then some r else find_review id rs

-- `compute_artifact_hash`, which raises where the bytes are missing
abbrev pub compute_artifact_hash : (Text → Text) → Option Text → Option Text
compute_artifact_hash sha256 none = none
compute_artifact_hash sha256 (some bytes) = some (sha256 bytes)

abbrev pub new_review : ℕ → ℕ → Artifact → User → Text → Review
new_review id requested_at a user hash = record {
  id = id;
  matter_id = a.matter_id;
  artifact_id = a.id;
  kind = a.kind;
  artifact_hash = hash;
  state = pending;
  requested_by_id = user.id;
  requested_at = requested_at;
  decided_by_id = none;
  decided_at = none;
  note = none;
}

abbrev pub insert_review : Review → ℕ → Option Review → Store → Outcome × Store
insert_review review user_id (some _) s = (integrity_error, s)
insert_review review user_id none s = (
  returned review,
  record s {
    reviews = review ∷ s.reviews;
    audits = review_requested review.id user_id review.artifact_hash ∷ s.audits;
  },
)

abbrev pub hash_and_insert : ℕ → ℕ → Artifact → User → Option Text → Store → Outcome × Store
hash_and_insert id requested_at a user none s = (artifact_bytes_unavailable, s)
hash_and_insert id requested_at a user (some hash) s =
    insert_review (new_review id requested_at a user hash) user.id (find_review id s.reviews) s

-- The identifier of the new row and the time are the caller's.
unfoldable pub request_review : (Text → Text) → ℕ → ℕ → Artifact → User → Store → Outcome × Store
request_review sha256 id requested_at a user s =
    if not (is_eligible a.kind)
    then (review_not_eligible, s)
    else if has_pending a.id s.reviews
    then (review_already_pending, s)
    else hash_and_insert id requested_at a user (compute_artifact_hash sha256 a.bytes) s

-- The row of the review takes its new values.
unfoldable pub update_review : Review → List Review → List Review
update_review new [] = []
update_review new (r ∷ rs) =
    let rest = update_review new rs in if r.id == new.id then new ∷ rs else r ∷ rest

abbrev is_creator : ℕ → Option Artifact → Bool
is_creator user_id none = false
is_creator user_id (some a) = opt_eq a.created_by_id (some user_id)

-- `user.id in author_ids`
unfoldable pub is_author : ℕ → Review → List Artifact → Bool
unfolding find_artifact
is_author user_id r artifacts =
    user_id == r.requested_by_id || is_creator user_id (find_artifact r.artifact_id artifacts)

abbrev pub store_decision : ℕ → Review → User → State → Text → Bool → Store → Outcome × Store
store_decision decided_at r user target note self_review_override s =
    let review = record r {
      state = target;
      decided_by_id = some user.id;
      decided_at = some decided_at;
      note = or_none note;
    } in
    (
      returned review,
      record s {
        reviews = update_review review s.reviews;
        audits = review_decided r.id user.id target (or_none note) self_review_override ∷ s.audits;
      },
    )

abbrev pub decide_known : ℕ → Review → User → Text → Option (State × Bool) → Store → Outcome × Store
decide_known decided_at r user note none s = (invalid_review_decision, s)
decide_known decided_at r user note (some (target, required)) s =
    if not (is_pending r.state)
    then (invalid_review_transition, s)
    else if required && is_empty note
    then (note_required, s)
    else if is_author user.id r s.artifacts && not user.is_superuser
    then (reviewer_is_author, s)
    else store_decision decided_at r user target note (is_author user.id r s.artifacts) s

unfoldable pub decide_review :
    (ℕ → Bool) → ℕ → Review → User → Decision → Option Text → Store → Outcome × Store
unfolding clean is_author update_review
decide_review strips decided_at r user decision note s =
    decide_known decided_at r user (clean strips note) (decision_map decision) s
