-- ===== src/Supervision/Tests.antt =====
-- One output, its review by a colleague, and its sign-off.
use legalise.Base.Text.{Text, codes}
use legalise.Base.{ℕ, ◌≡◌, refl, Bool, true, false, List, [], ◌∷◌, none, some, ◌==◌, arith}
use legalise.Supervision.Review
use legalise.Supervision.Review.{
  User, Store, Review, chat_draft, find_review, find_artifact, is_author, is_pending, clean,
  is_empty, decide_review, has_pending, request_review, update_review,
}
use legalise.Supervision.Separated.{Call, request, decide, run, step, Guarded}
use legalise.Supervision.Guarded.{run-Guarded}
use legalise.Supervision.Decided.{Effect, decided_row, decide_review-returned, run-decided}
use legalise.Supervision.Signoff
use legalise.Supervision.Signoff.{record_review_opened, review_opened_at}
use legalise.Supervision.Window
use legalise.Supervision.Window.{open_surface, sign, create_signoff-returned, run-IsOpened}

abbrev blank : ℕ → Bool
blank c = c == 32

abbrev same_text : Text → Text
same_text t = t

abbrev draft : Review.Artifact
draft = record {
  id = 1;
  matter_id = 2;
  module_id = 3;
  kind = chat_draft;
  created_by_id = some 7;
  bytes = some (codes "ab");
}

abbrev author : User
author = record { id = 7; is_superuser = false }

abbrev colleague : User
colleague = record { id = 8; is_superuser = false }

abbrev nobody : ℕ → Bool
nobody id = false

abbrev no_reviews : Store
no_reviews = record { artifacts = draft ∷ []; reviews = []; audits = [] }

abbrev reviewed : List Call
reviewed =
    request 10 100 draft author
    ∷ request 11 101 draft author
    ∷ decide 10 102 author Review.approve none
    ∷ decide 10 103 colleague Review.reject (some (codes "  "))
    ∷ decide 10 104 colleague Review.reject (some (codes " no "))
    ∷ decide 10 105 colleague Review.approve none
    ∷ []

abbrev rejected_row : Review
rejected_row = record {
  id = 10;
  matter_id = 2;
  artifact_id = 1;
  kind = chat_draft;
  artifact_hash = codes "ab";
  state = Review.rejected;
  requested_by_id = 7;
  requested_at = 100;
  decided_by_id = some 8;
  decided_at = some 104;
  note = some (codes "no");
}

abbrev one_review : Store
one_review = record { artifacts = draft ∷ []; reviews = rejected_row ∷ []; audits = [] }

-- The second request, the author's own decision, the empty note and the second decision change
-- nothing.
reviewed_once : (run same_text blank reviewed no_reviews).reviews ≡ rejected_row ∷ []
unfolding run step request_review decide_review has_pending find_review
reviewed_once = refl

run-Guarded_example : Guarded nobody (run same_text blank reviewed no_reviews)
run-Guarded_example =
    run-Guarded nobody same_text blank reviewed no_reviews
      (tt, (tt, (refl, (refl, (refl, (refl, tt)))))) ((λ a. omega arith), tt)

abbrev pending_row : Review
pending_row = record rejected_row {
  state = Review.pending;
  decided_by_id = none;
  decided_at = none;
  note = none;
}

abbrev open_review : Store
open_review = record one_review { reviews = pending_row ∷ [] }

decide_review-returned_example :
    Effect
      (decided_row 104 colleague Review.reject (clean blank (some (codes " no "))) pending_row)
      10
      open_review
      true
      (decide_review blank 104 pending_row colleague Review.reject
        (some (codes " no "))
        open_review)
unfolding find_review find_artifact
decide_review-returned_example =
    decide_review-returned blank 104 pending_row colleague (some (codes " no ")) draft open_review
      refl refl Review.reject

run-decided_example :
    find_review 10 (run same_text blank reviewed one_review).reviews ≡ some rejected_row
unfolding find_review
run-decided_example = run-decided 10 rejected_row refl same_text blank reviewed one_review refl

abbrev two_words : Signoff.Payload
two_words = Signoff.values (Signoff.cons (Signoff.text (codes "two words")) Signoff.nil)

abbrev output : Signoff.Artifact
output = record {
  id = 1;
  matter_id = 2;
  kind = 3;
  created_by_id = some 7;
  payload = some two_words;
}

abbrev digest : Signoff.Artifact → Signoff.Payload → Text
digest a p = codes "d"

abbrev opened_once : Signoff.Store
opened_once = record { signoffs = []; audits = Signoff.review_opened (some 7) 1 5_000_000 ∷ [] }

abbrev signing : List Window.Call
signing =
    open_surface 7 1 9_000_000
    ∷ sign true 20 65_000_000 output 7 Signoff.signed none
    ∷ sign true 21 65_000_000 output 7 Signoff.rejected (some (codes "wrong"))
    ∷ []

-- The author may reject but not sign, and a minute is too fast.
signed_fast :
    (Window.run digest blank blank signing opened_once).audits
    ≡ Signoff.decision_recorded
        (record {
          id = 21;
          matter_id = 2;
          artifact_id = 1;
          artifact_hash = codes "d";
          decision = Signoff.rejected;
          reasoning = some (codes "wrong");
          signer_id = 7;
          signed_at = 65_000_000;
        })
        true
        (some 60)
        true
      ∷ opened_once.audits
unfolding Window.run Window.step record_review_opened Signoff.create_signoff
signed_fast = refl

create_signoff-returned_example :
    Window.Effect
      (Window.signoff_row digest blank blank 20 65_000_000 output 7 Signoff.rejected
        (some (codes "wrong"))
        two_words)
      opened_once
      true
      (Signoff.create_signoff digest blank blank true 20 65_000_000 output 7 Signoff.rejected
        (some (codes "wrong"))
        opened_once)
create_signoff-returned_example =
    create_signoff-returned digest blank blank true 20 65_000_000 output two_words 7
      Signoff.rejected (some (codes "wrong")) opened_once refl

run-IsOpened_example :
    review_opened_at 7 1 (Window.run digest blank blank signing opened_once).audits ≡ some 5_000_000
unfolding review_opened_at
run-IsOpened_example = run-IsOpened 7 1 5_000_000 digest blank blank signing opened_once refl
