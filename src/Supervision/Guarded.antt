-- ===== src/Supervision/Guarded.antt =====
-- The calls of Supervision/Separated.antt keep its reviews guarded.
use legalise.Base.Text.{Text}
use legalise.Base.{
  ℕ, ◌≤◌, ◌≡◌, ◌≢◌, refl, opt_eq, if◌then◌else◌, All, ◌⊎◌, inl, inr, Bool, true, false, not, ◌&&◌,
  List, [], ◌∷◌, Option, none, some, ==_refl, if_both, arith, Bool-cases,
}
use legalise.Supervision.Review.{
  Artifact, User, State, approved, rejected, changes_requested, overridden, is_pending, Review,
  Decision, Audit, review_decided, Store, Outcome, request_review, decide_review, find_review,
  has_pending, is_author, reviewer_is_author, new_review, insert_review, hash_and_insert,
  store_decision, decide_known, clean, or_none, compute_artifact_hash, is_eligible, is_empty,
}
use legalise.Supervision.Separated.{
  Call, request, decide, decide_loaded, step, run, pending_count, has_override, Separated, Guarded,
  Apart, Known, has_pending-count, update-count, Separated-more, All-more, All-update,
}

module _ (supers : ℕ → Bool) where
  insert-Guarded :
      (review : Review) (user_id : ℕ) (o : Option Review) (s : Store)
      → Guarded supers s
      → has_pending review.artifact_id s.reviews ≡ false
      → Separated supers s.artifacts s.audits review review.decided_by_id (is_pending review.state)
      → Guarded supers (insert_review review user_id o s).1
  insert-Guarded review user_id (some _) s g free fit = g
  insert-Guarded review user_id none s (few, apart) free fit = (
    (λ artifact_id. insert_count artifact_id),
    (
      Separated-more supers s.artifacts _ s.audits review review.decided_by_id
          (is_pending review.state) fit,
      All-more supers s.artifacts _ s.audits s.reviews apart,
    ),
  )
    where
      insert_count : (artifact_id : ℕ) → pending_count artifact_id (review ∷ s.reviews) ≤ 1
      insert_count artifact_id =
          ground (arith, few artifact_id, has_pending-count review.artifact_id s.reviews free)

  abbrev After : Outcome × Store → Type 0
  After result = Guarded supers result.1

  ≤-trans : {a b c : ℕ} → a ≤ b → b ≤ c → a ≤ c
  ≤-trans h k = omega arith

  opt_eq-some : (o : Option ℕ) (n : ℕ) → opt_eq o (some n) ≡ false → o ≢ some n
  opt_eq-some none n h e = cc
  opt_eq-some (some m) n h e = ground (arith, h, e)

  is_author-Apart :
      (user_id : ℕ) (r : Review) (artifacts : List Artifact)
      → is_author user_id r artifacts ≡ false
      → Apart user_id r artifacts
  unfolding is_author
  is_author-Apart user_id r artifacts h = (
    (λ same. ground (arith, h, same)),
    (λ a found. opt_eq-some a.created_by_id user_id (ground (arith, rw (found) at h))),
  )

  said_or_other :
      (r : Review) (user : User) (target : State) (text : Option Text) (by_author : Bool)
      (artifacts : List Artifact) (audits : List Audit)
      → is_author user.id r artifacts ≡ by_author
      → (by_author ≡ true → supers user.id ≡ true)
      → Apart user.id r artifacts
        ⊎ ((supers user.id ≡ true)
            × (has_override r.id user.id
                  (review_decided r.id user.id target text by_author ∷ audits)
                ≡ true))
  unfolding has_override
  said_or_other r user target text false artifacts audits author super =
      inl (is_author-Apart user.id r artifacts author)
  said_or_other r user target text true artifacts audits author super =
      inr (super refl, rw (==_refl r.id, ==_refl user.id))

  module _ (sha256 : Text → Text) (strips : ℕ → Bool) where
    hash_and_insert-Guarded :
        (id requested_at : ℕ) (a : Artifact) (user : User) (o : Option Text) (s : Store)
        → Guarded supers s
        → has_pending a.id s.reviews ≡ false
        → Guarded supers (hash_and_insert id requested_at a user o s).1
    hash_and_insert-Guarded id requested_at a user none s g free = g
    hash_and_insert-Guarded id requested_at a user (some hash) s g free =
        insert-Guarded (new_review id requested_at a user hash) user.id (find_review id s.reviews) s
          g free refl

    request-Guarded :
        (id requested_at : ℕ) (a : Artifact) (user : User) (s : Store)
        → Guarded supers s
        → Guarded supers (request_review sha256 id requested_at a user s).1
    unfolding request_review
    request-Guarded id requested_at a user s g = elim (Bool-cases (is_eligible a.kind)) [
      | inr barred ↦ rw (barred) g
      | inl eligible ↦ elim (Bool-cases (has_pending a.id s.reviews)) [
        | inl taken ↦ rw (eligible, taken) g
        | inr free ↦
            rw (eligible, free)
              (hash_and_insert-Guarded id requested_at a user (compute_artifact_hash sha256 a.bytes)
                s g free)
      ]
    ]

    record-Guarded :
        (decided_at : ℕ) (r : Review) (user : User) (target : State) (text : Text)
        (by_author : Bool) (s : Store)
        → is_pending target ≡ false
        → is_author user.id r s.artifacts ≡ by_author
        → (by_author ≡ true → supers user.id ≡ true)
        → Guarded supers s
        → Guarded supers (store_decision decided_at r user target text by_author s).1
    unfolding is_author
    record-Guarded decided_at r user target text by_author s closed author super (few, apart) =
        let review = record r {
          state = target;
          decided_by_id = some user.id;
          decided_at = some decided_at;
          note = or_none text;
        } in
        let row = review_decided r.id user.id target (or_none text) by_author in
        (
          (λ artifact_id.
              ≤-trans (update-count artifact_id review s.reviews closed) (few artifact_id)),
          All-update supers s.artifacts (row ∷ s.audits) review s.reviews
              (
                closed,
                said_or_other r user target (or_none text) by_author s.artifacts s.audits author
                    super,
              )
              (All-more supers s.artifacts row s.audits s.reviews apart),
        )

    -- The four eyes guard, by whether the user is an author and a superuser.
    guard-Guarded :
        (decided_at : ℕ) (r : Review) (user : User) (target : State) (text : Text)
        (by_author super : Bool) (s : Store)
        → is_pending target ≡ false
        → is_author user.id r s.artifacts ≡ by_author
        → supers user.id ≡ super
        → Guarded supers s
        → Guarded supers
            (if by_author && not super
              then (reviewer_is_author, s)
              else store_decision decided_at r user target text by_author s).1
    guard-Guarded decided_at r user target text false super s closed author known g =
        record-Guarded decided_at r user target text false s closed author (λ e. cc) g
    guard-Guarded decided_at r user target text true false s closed author known g = g
    guard-Guarded decided_at r user target text true true s closed author known g =
        record-Guarded decided_at r user target text true s closed author (λ e. known) g

    decide_known-Guarded :
        (decided_at : ℕ) (r : Review) (user : User) (text : Text) (target : State) (required : Bool)
        (s : Store)
        → is_pending target ≡ false
        → supers user.id ≡ user.is_superuser
        → Guarded supers s
        → Guarded supers (decide_known decided_at r user text (some (target, required)) s).1
    decide_known-Guarded decided_at r user text target required s closed known g =
        if_both After (not (is_pending r.state)) g (
          if_both After (required && is_empty text) g (
            guard-Guarded decided_at r user target text (is_author user.id r s.artifacts)
              user.is_superuser s closed refl known g))

    decide_review-Guarded :
        (decided_at : ℕ) (r : Review) (user : User) (decision : Decision) (text : Option Text)
        (s : Store)
        → supers user.id ≡ user.is_superuser
        → Guarded supers s
        → Guarded supers (decide_review strips decided_at r user decision text s).1
    unfolding decide_review
    decide_review-Guarded decided_at r user (Decision.unknown _) text s known g = g
    decide_review-Guarded decided_at r user Decision.approve text s known g =
        decide_known-Guarded decided_at r user (clean strips text) approved false s refl known g
    decide_review-Guarded decided_at r user Decision.reject text s known g =
        decide_known-Guarded decided_at r user (clean strips text) rejected true s refl known g
    decide_review-Guarded decided_at r user Decision.request_changes text s known g =
        decide_known-Guarded decided_at r user (clean strips text) changes_requested true s refl
          known g
    decide_review-Guarded decided_at r user Decision.override text s known g =
        decide_known-Guarded decided_at r user (clean strips text) overridden true s refl known g

    decide_loaded-Guarded :
        (o : Option Review) (decided_at : ℕ) (user : User) (decision : Decision)
        (text : Option Text) (s : Store)
        → supers user.id ≡ user.is_superuser
        → Guarded supers s
        → Guarded supers (decide_loaded sha256 strips o decided_at user decision text s)
    decide_loaded-Guarded none decided_at user decision text s known g = g
    decide_loaded-Guarded (some r) decided_at user decision text s known g =
        decide_review-Guarded decided_at r user decision text s known g

    -- Let every deciding user be a superuser exactly when the accounts say so. Then after any requests
    -- and decisions in any order, on any guarded store (as one without reviews is), an artifact has at
    -- most one pending review, and each decided review was decided by a person who neither requested it
    -- nor created its artifact, or by a superuser whose override is on its audit row.
    pub run-Guarded :
        (calls : List Call) (s : Store)
        → All (Known supers) calls
        → Guarded supers s
        → Guarded supers (run sha256 strips calls s)
    unfolding run step
    run-Guarded [] s k g = g
    run-Guarded (request id requested_at a user ∷ calls) s k g =
        run-Guarded calls (request_review sha256 id requested_at a user s).1 k.1
          (request-Guarded id requested_at a user s g)
    run-Guarded (decide id decided_at user decision text ∷ calls) s k g =
        run-Guarded calls
          (decide_loaded sha256 strips (find_review id s.reviews) decided_at user decision text s)
          k.1
          (decide_loaded-Guarded (find_review id s.reviews) decided_at user decision text s k.0 g)
