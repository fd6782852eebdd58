-- ===== src/Supervision/Signoff.antt =====
-- backend/app/core/signoff.py: the sign-off of an output by the person who stands behind it, with
-- the time that the review took. Times are in microseconds. A payload is JSON, of which only the
-- texts are counted. The digest of the output (SHA-256 of its canonical JSON) is a parameter, and so
-- are the white space of `str.split` and of `str.strip`.
use legalise.Base.Text.{Text}
use legalise.Base.{
  ℕ, ◌+◌, ◌-◌, ◌*◌, ◌/◌, Bool, true, false, not, ◌&&◌, ◌||◌, List, [], ◌∷◌, Option, none, some,
  ◌==◌, opt_eq, ltb, member, if◌then◌else◌,
}
use legalise.Supervision.Review.{clean, is_empty, or_none}

mutual
  pub data Payload : Type 0 where
    text : Text → Payload
    -- the values of a dict, or the elements of a list
    values : Payloads → Payload
    other : ℕ → Payload

  pub data Payloads : Type 0 where
    nil : Payloads
    cons : Payload → Payloads → Payloads

pub record Artifact : Type 0 where
  pub id : ℕ
  pub matter_id : ℕ
  pub kind : ℕ
  -- `none` where nobody is recorded
  pub created_by_id : Option ℕ
  -- `none` where the object is missing from the storage
  pub payload : Option Payload

pub data Decision : Type 0 where
  signed signed_with_observations rejected : Decision
  unknown : ℕ → Decision

pub record Signoff : Type 0 where
  pub id : ℕ
  pub matter_id : ℕ
  pub artifact_id : ℕ
  pub artifact_hash : Text
  pub decision : Decision
  pub reasoning : Option Text
  pub signer_id : ℕ
  pub signed_at : ℕ

pub data Audit : Type 0 where
  -- `output.review.opened`: the actor, the artifact and the time
  review_opened : Option ℕ → ℕ → ℕ → Audit
  -- the sign-off, `signer_is_author`, `review_seconds` and `implausible_speed`
  decision_recorded : Signoff → Bool → Option ℕ → Bool → Audit

-- Rows are newest first, in the order in which they were inserted.
pub record Store : Type 0 where
  pub signoffs : List Signoff
  pub audits : List Audit

pub data Outcome : Type 0 where
  returned : Signoff → Outcome
  invalid_signoff_decision reasoning_required author_cannot_sign : Outcome
  artifact_bytes_unavailable : Outcome

-- `len(text.split())`: the places where a word begins; `fresh` is whether one may begin here.
abbrev words_from : (ℕ → Bool) → Bool → Text → ℕ
words_from is_space fresh [] = 0
words_from is_space fresh (c ∷ more) =
    if is_space c
    then words_from is_space true more
    else (if fresh then 1 else 0) + words_from is_space false more

unfoldable mutual
  pub count_payload_words : (ℕ → Bool) → Payload → ℕ
  count_payload_words is_space (text t) = words_from is_space true t
  count_payload_words is_space (values ps) = sum_words is_space ps
  count_payload_words is_space (other _) = 0

  pub sum_words : (ℕ → Bool) → Payloads → ℕ
  sum_words is_space nil = 0
  sum_words is_space (cons p ps) = count_payload_words is_space p + sum_words is_space ps

-- `seconds < max(120, words * 0.15)` on whole seconds. The float product is never above the exact
-- one, and is nearer to it than the exact one is to the next whole number below, so the comparison
-- is exact.
unfoldable pub is_implausible : ℕ → ℕ → Bool
is_implausible word_count seconds = ltb seconds 120 || ltb (20 * seconds) (3 * word_count)

abbrev pub opened_by : ℕ → ℕ → Option ℕ → ℕ → Bool
opened_by user_id artifact_id none a = false
opened_by user_id artifact_id (some u) a = u == user_id && a == artifact_id

-- A row of `output.review.opened` exists for the pair.
unfoldable pub has_opened : ℕ → ℕ → List Audit → Bool
has_opened user_id artifact_id [] = false
has_opened user_id artifact_id (review_opened u a _ ∷ more) =
    opened_by user_id artifact_id u a || has_opened user_id artifact_id more
has_opened user_id artifact_id (_ ∷ more) = has_opened user_id artifact_id more

unfoldable pub record_review_opened : ℕ → ℕ → ℕ → Store → Bool × Store
unfolding has_opened
record_review_opened user_id artifact_id now s =
    if has_opened user_id artifact_id s.audits
    then (false, s)
    else (true, record s { audits = review_opened (some user_id) artifact_id now ∷ s.audits })

abbrev pub earlier : ℕ → Option ℕ → Option ℕ
earlier t none = some t
earlier t (some t') = if ltb t t' then some t else some t'

-- `review_opened_at_map`, at one pair: MIN of the times
unfoldable pub review_opened_at : ℕ → ℕ → List Audit → Option ℕ
review_opened_at user_id artifact_id [] = none
review_opened_at user_id artifact_id (review_opened u a t ∷ more) =
    let rest = review_opened_at user_id artifact_id more in
    if opened_by user_id artifact_id u a then earlier t rest else rest
review_opened_at user_id artifact_id (_ ∷ more) = review_opened_at user_id artifact_id more

-- The time of the sign-off is always given here.
unfoldable pub review_latency_seconds : Option ℕ → ℕ → Option ℕ
review_latency_seconds none signed_at = none
review_latency_seconds (some opened_at) signed_at =
    if ltb signed_at opened_at then none else some ((signed_at - opened_at) / 1_000_000)

abbrev pub is_decision : Decision → Bool
is_decision (unknown _) = false
is_decision _ = true

-- SIGNOFF_REASONING_REQUIRED
abbrev pub needs_reasoning : Decision → Bool
needs_reasoning signed_with_observations = true
needs_reasoning rejected = true
needs_reasoning _ = false

-- `decision in (SIGNOFF_SIGNED, SIGNOFF_SIGNED_WITH_OBSERVATIONS)`
abbrev pub is_signature : Decision → Bool
is_signature signed = true
is_signature signed_with_observations = true
is_signature _ = false

abbrev is_fast : ℕ → Option ℕ → Bool
is_fast word_count none = false
is_fast word_count (some seconds) = is_implausible word_count seconds

module _ (digest : Artifact → Payload → Text) (is_space strips : ℕ → Bool) where
  abbrev pub insert_signoff :
      ℕ → ℕ → Artifact → ℕ → Decision → Text → Option Payload → Store → Outcome × Store
  insert_signoff id signed_at a user_id decision reasoning none s = (artifact_bytes_unavailable, s)
  insert_signoff id signed_at a user_id decision reasoning (some payload) s =
      let review_seconds =
        review_latency_seconds (review_opened_at user_id a.id s.audits) signed_at in
      let signoff : Signoff = record {
        id = id;
        matter_id = a.matter_id;
        artifact_id = a.id;
        artifact_hash = digest a payload;
        decision = decision;
        reasoning = or_none reasoning;
        signer_id = user_id;
        signed_at = signed_at;
      } in
      (
        returned signoff,
        record s {
          signoffs = signoff ∷ s.signoffs;
          audits =
              decision_recorded signoff (opt_eq a.created_by_id (some user_id)) review_seconds
                (is_fast (count_payload_words is_space payload) review_seconds)
              ∷ s.audits;
        },
      )

  -- `author_must_differ` is the setting of that name.
  unfoldable pub create_signoff :
      Bool → ℕ → ℕ → Artifact → ℕ → Decision → Option Text → Store → Outcome × Store
  unfolding clean review_opened_at review_latency_seconds is_implausible
  create_signoff author_must_differ id signed_at a user_id decision reasoning s =
      if not (is_decision decision)
      then (invalid_signoff_decision, s)
      else if needs_reasoning decision && is_empty (clean strips reasoning)
      then (reasoning_required, s)
      else if author_must_differ && opt_eq a.created_by_id (some user_id) && is_signature decision
      then (author_cannot_sign, s)
      else insert_signoff id signed_at a user_id decision (clean strips reasoning) a.payload s

-- `ORDER BY signed_at DESC, id DESC`
abbrev pub is_newer : Signoff → Signoff → Bool
is_newer a b = ltb b.signed_at a.signed_at || (a.signed_at == b.signed_at && ltb b.id a.id)

unfoldable pub insert_newest : Signoff → List Signoff → List Signoff
insert_newest a [] = a ∷ []
insert_newest a (b ∷ more) =
    let rest = insert_newest a more in if is_newer b a then b ∷ rest else a ∷ b ∷ more

unfoldable pub list_signoffs : ℕ → List Signoff → List Signoff
unfolding insert_newest
list_signoffs matter_id [] = []
list_signoffs matter_id (s ∷ more) =
    let rest = list_signoffs matter_id more in
    if s.matter_id == matter_id then insert_newest s rest else rest

-- The loop of `current_signoff_ids`, with the artifacts seen so far.
unfoldable pub current_from : List ℕ → List Signoff → List ℕ
current_from seen [] = []
current_from seen (s ∷ more) =
    let rest = current_from (s.artifact_id ∷ seen) more in
    let skipped = current_from seen more in
    if member s.artifact_id seen then skipped else s.id ∷ rest

unfoldable pub current_signoff_ids : List Signoff → List ℕ
unfolding current_from
current_signoff_ids signoffs = current_from [] signoffs

-- `bool(payload.get("implausible_speed"))` of the sign-off's own audit row
unfoldable pub recorded_flag : ℕ → List Audit → Bool
recorded_flag id [] = false
recorded_flag id (decision_recorded signoff _ _ flag ∷ more) =
    let rest = recorded_flag id more in if signoff.id == id then flag else rest
recorded_flag id (_ ∷ more) = recorded_flag id more

-- `review_annotations`, at one sign-off
unfoldable pub review_annotation : List Audit → Signoff → Option ℕ × Bool
unfolding review_opened_at recorded_flag
review_annotation audits s = (
  review_latency_seconds (review_opened_at s.signer_id s.artifact_id audits) s.signed_at,
  recorded_flag s.id audits,
)
