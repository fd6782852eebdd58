-- ===== src/Supervision/Decided.antt =====
-- Which decisions Supervision/Review.antt records, and that they are final.
use legalise.Base.Text.{Text}
use legalise.Base.{
  ℕ, ◌≡◌, refl, sym, ap, subst, ◌∙◌, inl, inr, Bool, true, false, not, ◌&&◌, ◌||◌, List, [], ◌∷◌,
  Option, none, some, ◌==◌, opt_eq, if◌then◌else◌, if_both, arith, Bool-cases, Option-cases,
  eq_of_some_eq, some-none, ==_iff,
}
use legalise.Supervision.Visible.{shows, is_empty-clean}
use legalise.Supervision.Review.{
  invalid_review_transition, note_required, reviewer_is_author, Artifact, User, State, is_pending,
  Review, Decision, Store, Outcome, returned, request_review, pending, approved, rejected,
  changes_requested, overridden, or_none, store_decision, find_artifact, decide_review, find_review,
  has_pending, update_review, is_author, new_review, insert_review, hash_and_insert, decide_known,
  decision_map, clean, compute_artifact_hash, is_eligible, is_empty,
}
use legalise.Supervision.Separated.{Call, request, decide, decide_loaded, step, run}

abbrev pub is_returned : Outcome → Bool
is_returned (returned _) = true
is_returned _ = false

-- The verbs and the notes they need, as the module's documentation has them.
abbrev pub is_known : Decision → Bool
is_known (Decision.unknown _) = false
is_known _ = true

abbrev pub needs_note : Decision → Bool
needs_note Decision.approve = false
needs_note _ = true

-- The state that a verb leads to.
abbrev pub verdict : Decision → State
verdict Decision.approve = approved
verdict Decision.reject = rejected
verdict Decision.request_changes = changes_requested
verdict Decision.override = overridden
verdict (Decision.unknown _) = pending

abbrev pub undecided : State → Bool
undecided pending = true
undecided approved = false
undecided rejected = false
undecided changes_requested = false
undecided overridden = false

find_review-update :
    (id : ℕ) (new : Review) (rs : List Review)
    → (new.id == id) ≡ false
    → find_review id (update_review new rs) ≡ find_review id rs
unfolding find_review update_review
find_review-update id new [] h = refl
find_review-update id new (r ∷ rs) h = ground (arith, find_review-update id new rs h)

find_review-updated :
    (r new : Review) (rs : List Review)
    → find_review r.id rs ≡ some r
    → new.id ≡ r.id
    → find_review r.id (update_review new rs) ≡ some new
unfolding find_review update_review
find_review-updated r new [] h e = cc
find_review-updated r new (q ∷ rs) h e = ground (arith, find_review-updated r new rs, h, e)

id_of_find_review :
    (id : ℕ) (rs : List Review) {r : Review} → find_review id rs ≡ some r → r.id ≡ id
unfolding find_review
id_of_find_review id [] h = cc
id_of_find_review id (q ∷ rs) {r = r} h = ground (arith, id_of_find_review id rs {r = r})

-- The review as a decision leaves it.
abbrev pub decided_row : ℕ → User → Decision → Text → Review → Review
decided_row decided_at user decision note r = record r {
  state = verdict decision;
  decided_by_id = some user.id;
  decided_at = some decided_at;
  note = or_none note;
}

-- What a call leaves, by whether it passes: the row in its new form, or the store as it was.
abbrev pub Effect : Review → ℕ → Store → Bool → Outcome × Store → Type 0
Effect row id s true result =
    (is_returned result.0 ≡ true) × (find_review id result.1.reviews ≡ some row)
Effect row id s false result = (is_returned result.0 ≡ false) × (result.1 ≡ s)

guards-Effect :
    (row : Review) (id : ℕ) (s : Store) (is_open required blank by_author super : Bool)
    (stored : Outcome × Store)
    → Effect row id s true stored
    → Effect row id s (is_open && (not required || not blank) && (not by_author || super)) (
        if not is_open
        then (invalid_review_transition, s)
        else if required && blank
        then (note_required, s)
        else if by_author && not super
        then (reviewer_is_author, s)
        else stored)
guards-Effect row id s false required blank by_author super stored e = (refl, refl)
guards-Effect row id s true true true by_author super stored e = (refl, refl)
guards-Effect row id s true true false true false stored e = (refl, refl)
guards-Effect row id s true true false true true stored e = e
guards-Effect row id s true true false false super stored e = e
guards-Effect row id s true false blank true false stored e = (refl, refl)
guards-Effect row id s true false blank true true stored e = e
guards-Effect row id s true false blank false super stored e = e

is_pending-undecided : (state : State) → is_pending state ≡ undecided state
is_pending-undecided pending = refl
is_pending-undecided approved = refl
is_pending-undecided rejected = refl
is_pending-undecided changes_requested = refl
is_pending-undecided overridden = refl

module _ (strips : ℕ → Bool) (decided_at : ℕ) (r : Review) (user : User) (text : Option Text)
    (a : Artifact) (s : Store) (known : find_review r.id s.reviews ≡ some r)
    (found : find_artifact r.artifact_id s.artifacts ≡ some a) where
  -- Whether the user neither requested the review nor created its artifact, or may override that.
  abbrev pub others_eyes : Bool
  others_eyes =
      (not (user.id == r.requested_by_id) && not (opt_eq a.created_by_id (some user.id)))
      || user.is_superuser

  passes_eq :
      (required : Bool)
      → (is_pending r.state
          && (not required || not (is_empty (clean strips text)))
          && (not (is_author user.id r s.artifacts) || user.is_superuser))
        ≡ (undecided r.state && (not required || shows strips text) && others_eyes)
  unfolding is_author
  passes_eq required =
      rw (is_pending-undecided r.state, is_empty-clean strips text, found) (ground arith)

  decide_known-Effect :
      (decision : Decision) (target : State) (required : Bool)
      → target ≡ verdict decision
      → Effect
          (decided_row decided_at user decision (clean strips text) r)
          r.id
          s
          (undecided r.state && (not required || shows strips text) && others_eyes)
          (decide_known decided_at r user (clean strips text) (some (target, required)) s)
  decide_known-Effect decision target required named =
      let note = clean strips text in
      let reached : Effect (decided_row decided_at user decision note r) r.id s true
          (store_decision decided_at r user target note (is_author user.id r s.artifacts) s) =
        rw (named) (
          refl,
          find_review-updated r (decided_row decided_at user decision note r) s.reviews known refl,
        ) in
      subst
        (λ b.
          Effect (decided_row decided_at user decision note r) r.id s b
            (decide_known decided_at r user note (some (target, required)) s))
        (passes_eq required)
        (guards-Effect (decided_row decided_at user decision note r) r.id s (is_pending r.state)
          required (is_empty note) (is_author user.id r s.artifacts) user.is_superuser _ reached)

  -- For a review and its artifact as they are stored: a decision passes exactly when its verb is
  -- known, the review is undecided, a note with visible text comes with every verb but approve, and
  -- the user neither requested the review nor created the artifact, or is a superuser. A decision
  -- that passes writes the verb's state, the user, the time and the note into the review; one that
  -- does not changes nothing.
  pub decide_review-returned :
      (decision : Decision)
      → Effect
          (decided_row decided_at user decision (clean strips text) r)
          r.id
          s
          (is_known decision
            && undecided r.state
            && (not (needs_note decision) || shows strips text)
            && others_eyes)
          (decide_review strips decided_at r user decision text s)
  unfolding decide_review
  decide_review-returned (Decision.unknown _) = (refl, refl)
  decide_review-returned Decision.approve = decide_known-Effect Decision.approve approved false refl
  decide_review-returned Decision.reject = decide_known-Effect Decision.reject rejected true refl
  decide_review-returned Decision.request_changes =
      decide_known-Effect Decision.request_changes changes_requested true refl
  decide_review-returned Decision.override =
      decide_known-Effect Decision.override overridden true refl

module _ (id : ℕ) (r : Review) (decided : is_pending r.state ≡ false) where
  abbrev Kept : Outcome × Store → Type 0
  Kept result = find_review id result.1.reviews ≡ some r

  decide_known-Kept :
      (decided_at : ℕ) (q : Review) (user : User) (text : Text) (o : Option (State × Bool))
      (s : Store)
      → (q.id == id) ≡ false
      → find_review id s.reviews ≡ some r
      → Kept (decide_known decided_at q user text o s)
  decide_known-Kept decided_at q user text none s apart k = k
  decide_known-Kept decided_at q user text (some (target, required)) s apart k =
      if_both Kept (not (is_pending q.state)) k (
        if_both Kept (required && is_empty text) k (
          if_both Kept (is_author user.id q s.artifacts && not user.is_superuser) k
            (find_review-update id _ s.reviews apart ∙ k)))

  decide_known-closed :
      (decided_at : ℕ) (user : User) (text : Text) (o : Option (State × Bool)) (s : Store)
      → find_review id s.reviews ≡ some r
      → Kept (decide_known decided_at r user text o s)
  decide_known-closed decided_at user text none s k = k
  decide_known-closed decided_at user text (some (target, required)) s k = rw (decided) k

  decide_loaded-Kept :
      (sha256 : Text → Text) (strips : ℕ → Bool) (id' decided_at : ℕ) (user : User)
      (decision : Decision) (text : Option Text) (s : Store) (o : Option Review)
      → find_review id' s.reviews ≡ o
      → find_review id s.reviews ≡ some r
      → find_review id (decide_loaded sha256 strips o decided_at user decision text s).reviews
        ≡ some r
  unfolding decide_review
  decide_loaded-Kept sha256 strips id' decided_at user decision text s none found k = k
  decide_loaded-Kept sha256 strips id' decided_at user decision text s (some q) found k =
      elim (Bool-cases (q.id == id)) [
        | inr apart ↦
            decide_known-Kept decided_at q user (clean strips text) (decision_map decision) s apart
              k
        | inl same ↦
            let its : q ≡ r = eq_of_some_eq (
              sym found
              ∙ ap (λ n. find_review n s.reviews)
                  (sym (id_of_find_review id' s.reviews found) ∙ (==_iff q.id id).0 same)
              ∙ k) in
            subst
              (λ x.
                Kept (decide_known decided_at x user (clean strips text) (decision_map decision) s))
              (sym its)
              (decide_known-closed decided_at user (clean strips text) (decision_map decision) s k)
      ]

  insert_review-Kept :
      (review : Review) (user_id : ℕ) (s : Store)
      → find_review id s.reviews ≡ some r
      → Kept (insert_review review user_id (find_review review.id s.reviews) s)
  unfolding find_review
  insert_review-Kept review user_id s k = elim (Option-cases (find_review review.id s.reviews)) [
    | inr (q, taken) ↦ rw (taken) k
    | inl free ↦ elim (Bool-cases (review.id == id)) [
      | inl same ↦ absurd (
          some-none
            (sym k ∙ ap (λ n. find_review n s.reviews) (sym ((==_iff review.id id).0 same)) ∙ free))
      | inr apart ↦ rw (free, apart) k
    ]
  ]

  hash_and_insert-Kept :
      (id' requested_at : ℕ) (a : Artifact) (user : User) (o : Option Text) (s : Store)
      → find_review id s.reviews ≡ some r
      → Kept (hash_and_insert id' requested_at a user o s)
  hash_and_insert-Kept id' requested_at a user none s k = k
  hash_and_insert-Kept id' requested_at a user (some hash) s k =
      insert_review-Kept (new_review id' requested_at a user hash) user.id s k

  request_review-Kept :
      (sha256 : Text → Text) (id' requested_at : ℕ) (a : Artifact) (user : User) (s : Store)
      → find_review id s.reviews ≡ some r
      → Kept (request_review sha256 id' requested_at a user s)
  unfolding request_review
  request_review-Kept sha256 id' requested_at a user s k =
      if_both Kept (not (is_eligible a.kind)) k (
        if_both Kept (has_pending a.id s.reviews) k
          (hash_and_insert-Kept id' requested_at a user (compute_artifact_hash sha256 a.bytes) s k))

  -- A decided review is final: no calls in any order change its row, nor replace it.
  pub run-decided :
      (sha256 : Text → Text) (strips : ℕ → Bool) (calls : List Call) (s : Store)
      → find_review id s.reviews ≡ some r
      → find_review id (run sha256 strips calls s).reviews ≡ some r
  unfolding run step
  run-decided sha256 strips [] s k = k
  run-decided sha256 strips (request id' requested_at a user ∷ calls) s k =
      run-decided sha256 strips calls (request_review sha256 id' requested_at a user s).1
        (request_review-Kept sha256 id' requested_at a user s k)
  run-decided sha256 strips (decide id' decided_at user decision text ∷ calls) s k =
      run-decided sha256 strips calls
        (decide_loaded sha256 strips (find_review id' s.reviews) decided_at user decision text s)
        (decide_loaded-Kept sha256 strips id' decided_at user decision text s
          (find_review id' s.reviews) refl k)
