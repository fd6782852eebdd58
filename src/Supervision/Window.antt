-- ===== src/Supervision/Window.antt =====
-- What Supervision/Signoff.antt accepts, and the review window that it records.
use legalise.Base.Text.{Text}
use legalise.Base.{
  ℕ, ◌≡◌, refl, sym, ap, subst, ◌∙◌, Bool, true, false, not, ◌&&◌, ◌||◌, List, [], ◌∷◌, Option,
  none, some, ◌==◌, opt_eq, if◌then◌else◌, is_none, Bool-cases, if_both, inl, inr, true-false,
  arith,
}
use legalise.Supervision.Review.{clean, is_empty, or_none}
use legalise.Supervision.Visible.{shows, is_empty-clean}
use legalise.Supervision.Signoff.{
  Payload, Artifact, Signoff, signed, signed_with_observations, rejected, invalid_signoff_decision,
  reasoning_required, author_cannot_sign, Decision, Audit, review_opened, Store, Outcome, returned,
  has_opened, record_review_opened, review_opened_at, is_decision, needs_reasoning, is_signature,
  create_signoff, insert_signoff, earlier, opened_by,
}

abbrev pub is_returned : Outcome → Bool
is_returned (returned _) = true
is_returned _ = false

pub data Call : Type 0 where
  -- the user, the artifact and the time
  open_surface : ℕ → ℕ → ℕ → Call
  sign : Bool → ℕ → ℕ → Artifact → ℕ → Decision → Option Text → Call

-- What a sign-off asks for, by its decision: that somebody else than the author signs, where the
-- workspace wants that, and a reasoning with visible text where the decision qualifies or rejects.
abbrev pub admits : Decision → Bool → Bool → Bool
admits signed second_person reasoned = second_person
admits signed_with_observations second_person reasoned = second_person && reasoned
admits rejected second_person reasoned = reasoned
admits (Decision.unknown _) second_person reasoned = false

-- The newest sign-off is the call's own, on the digest of the output as it was read; or nothing
-- has changed.
abbrev pub Effect : Signoff → Store → Bool → Outcome × Store → Type 0
Effect row s true result = (result.0 ≡ returned row) × (result.1.signoffs ≡ row ∷ s.signoffs)
Effect row s false result = (is_returned result.0 ≡ false) × (result.1 ≡ s)

module _ (digest : Artifact → Payload → Text) (is_space strips : ℕ → Bool) where
  abbrev pub signoff_row : ℕ → ℕ → Artifact → ℕ → Decision → Option Text → Payload → Signoff
  signoff_row id signed_at a user_id decision reasoning payload = record {
    id = id;
    matter_id = a.matter_id;
    artifact_id = a.id;
    artifact_hash = digest a payload;
    decision = decision;
    reasoning = or_none (clean strips reasoning);
    signer_id = user_id;
    signed_at = signed_at;
  }

  -- A readable output is signed off exactly when the decision is known, its reasoning has visible text
  -- where it qualifies or rejects, and it is not the author's own signature in a workspace that wants
  -- a second person; the author may always reject. The sign-off that is then stored is the call's, on
  -- the output's digest; otherwise nothing changes.
  pub create_signoff-returned :
      (author_must_differ : Bool) (id signed_at : ℕ) (a : Artifact) (payload : Payload)
      (user_id : ℕ) (decision : Decision) (reasoning : Option Text) (s : Store)
      → a.payload ≡ some payload
      → Effect
          (signoff_row id signed_at a user_id decision reasoning payload)
          s
          (admits decision
            (not author_must_differ || not (opt_eq a.created_by_id (some user_id)))
            (shows strips reasoning))
          (create_signoff digest is_space strips author_must_differ id signed_at a user_id decision
            reasoning s)
  unfolding create_signoff
  create_signoff-returned differ id signed_at a payload user_id decision reasoning s readable =
      rw (is_empty-clean strips reasoning) (
        accepts decision differ (opt_eq a.created_by_id (some user_id)) (shows strips reasoning)
          (insert_signoff digest is_space strips id signed_at a user_id decision
            (clean strips reasoning) a.payload s)
          (subst
            (λ o. Effect (signoff_row id signed_at a user_id decision reasoning payload) s true (
              insert_signoff digest is_space strips id signed_at a user_id decision
                (clean strips reasoning) o s))
            (sym readable) (refl, refl)))
    where
      accepts :
          (d : Decision) (must own reasoned : Bool) (stored : Outcome × Store)
          → Effect (signoff_row id signed_at a user_id decision reasoning payload) s true stored
          → Effect
              (signoff_row id signed_at a user_id decision reasoning payload)
              s
              (admits d (not must || not own) reasoned)
              (if not (is_decision d)
                then (invalid_signoff_decision, s)
                else if needs_reasoning d && not reasoned
                then (reasoning_required, s)
                else if must && own && is_signature d
                then (author_cannot_sign, s)
                else stored)
      accepts (Decision.unknown _) must own reasoned stored e = (refl, refl)
      accepts signed true true reasoned stored e = (refl, refl)
      accepts signed true false reasoned stored e = e
      accepts signed false own reasoned stored e = e
      accepts signed_with_observations true true true stored e = (refl, refl)
      accepts signed_with_observations true true false stored e = (refl, refl)
      accepts signed_with_observations true false true stored e = e
      accepts signed_with_observations true false false stored e = (refl, refl)
      accepts signed_with_observations false own true stored e = e
      accepts signed_with_observations false own false stored e = (refl, refl)
      accepts rejected true true true stored e = e
      accepts rejected true false true stored e = e
      accepts rejected false own true stored e = e
      accepts rejected must own false stored e = (refl, refl)

  unfoldable pub step : Call → Store → Store
  step (open_surface user_id artifact_id now) s = (record_review_opened user_id artifact_id now s).1
  step (sign author_must_differ id signed_at a user_id decision reasoning) s =
      (create_signoff digest is_space strips author_must_differ id signed_at a user_id decision
        reasoning s).1

  unfoldable pub run : List Call → Store → Store
  unfolding step
  run [] s = s
  run (c ∷ cs) s = run cs (step c s)

is_some-earlier : (t : ℕ) (o : Option ℕ) → not (is_none (earlier t o)) ≡ true
is_some-earlier t none = refl
is_some-earlier t (some t') = ground arith

opened_either :
    (hit : Bool) (t : ℕ) (o : Option ℕ)
    → (hit || not (is_none o)) ≡ not (is_none (if hit then earlier t o else o))
opened_either true t o = sym (is_some-earlier t o)
opened_either false t o = refl

has_opened-at :
    (u a : ℕ) (audits : List Audit)
    → has_opened u a audits ≡ not (is_none (review_opened_at u a audits))
unfolding has_opened review_opened_at
has_opened-at u a [] = refl
has_opened-at u a (review_opened v b t ∷ more) =
    rw (has_opened-at u a more) (opened_either (opened_by u a v b) t (review_opened_at u a more))
has_opened-at u a (Audit.decision_recorded _ _ _ _ ∷ more) = has_opened-at u a more

module _ (u a t : ℕ) where
  abbrev IsOpened : Store → Type 0
  IsOpened s = review_opened_at u a s.audits ≡ some t

  abbrev After : Outcome × Store → Type 0
  After result = IsOpened result.1

  record_review_opened-IsOpened :
      (v b now : ℕ) (s : Store) → IsOpened s → IsOpened (record_review_opened v b now s).1
  unfolding record_review_opened review_opened_at
  record_review_opened-IsOpened v b now s h = elim (Bool-cases (has_opened v b s.audits)) [
    | inl before ↦ rw (before) h
    | inr first ↦ elim (Bool-cases (v == u && b == a)) [
      | inr apart ↦ rw (first, apart) h
      | inl same ↦
          let same_user : v ≡ u = ground (arith, same) in
          let same_artifact : b ≡ a = ground (arith, same) in
          absurd (
            true-false (
              sym (has_opened-at u a s.audits ∙ ap (λ o. not (is_none o)) h)
              ∙ ap (λ x. has_opened x a s.audits) (sym same_user)
              ∙ ap (λ x. has_opened v x s.audits) (sym same_artifact)
              ∙ first))
    ]
  ]

  insert_signoff-IsOpened :
      (digest : Artifact → Payload → Text) (is_space strips : ℕ → Bool) (id signed_at : ℕ)
      (b : Artifact) (user_id : ℕ) (decision : Decision) (reasoning : Text) (o : Option Payload)
      (s : Store)
      → IsOpened s
      → IsOpened
          (insert_signoff digest is_space strips id signed_at b user_id decision reasoning o s).1
  unfolding review_opened_at
  insert_signoff-IsOpened digest is_space strips id signed_at b user_id decision reasoning none s
        h =
      h
  insert_signoff-IsOpened digest is_space strips id signed_at b user_id decision reasoning (some p)
        s h =
      h

  create_signoff-IsOpened :
      (digest : Artifact → Payload → Text) (is_space strips : ℕ → Bool) (author_must_differ : Bool)
      (id signed_at : ℕ) (b : Artifact) (user_id : ℕ) (decision : Decision)
      (reasoning : Option Text) (s : Store)
      → IsOpened s
      → IsOpened
          (create_signoff digest is_space strips author_must_differ id signed_at b user_id decision
            reasoning s).1
  unfolding create_signoff
  create_signoff-IsOpened digest is_space strips author_must_differ id signed_at b user_id decision
        reasoning s h =
      if_both After (not (is_decision decision)) h (
        if_both After (needs_reasoning decision && is_empty (clean strips reasoning)) h (
          if_both After
            (author_must_differ && opt_eq b.created_by_id (some user_id) && is_signature decision) h
            (insert_signoff-IsOpened digest is_space strips id signed_at b user_id decision
              (clean strips reasoning) b.payload s h)))

  -- The review of an output by a person begins when that person first opens it: once it has begun, no
  -- calls in any order, by anyone and at any times, move its beginning, so no later opening shortens
  -- the recorded time.
  pub run-IsOpened :
      (digest : Artifact → Payload → Text) (is_space strips : ℕ → Bool) (calls : List Call)
      (s : Store)
      → review_opened_at u a s.audits ≡ some t
      → review_opened_at u a (run digest is_space strips calls s).audits ≡ some t
  unfolding run step
  run-IsOpened digest is_space strips [] s h = h
  run-IsOpened digest is_space strips (open_surface v b now ∷ calls) s h =
      run-IsOpened digest is_space strips calls (record_review_opened v b now s).1
        (record_review_opened-IsOpened v b now s h)
  run-IsOpened digest is_space strips
        (sign differ id signed_at b user_id decision reasoning ∷ calls) s h =
      run-IsOpened digest is_space strips calls
        (create_signoff digest is_space strips differ id signed_at b user_id decision reasoning s).1
        (create_signoff-IsOpened digest is_space strips differ id signed_at b user_id decision
          reasoning s h)
