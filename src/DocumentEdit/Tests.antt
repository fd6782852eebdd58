-- ===== src/DocumentEdit/Tests.antt =====
-- Two edits of one version.
use legalise.Base.{◌≡◌, ℕ, Bool, List, refl, true, false, [], ◌∷◌, Option, none, some}
use legalise.Base.Text.{Text, codes}
use legalise.DocumentEdit.Substitution.{
  DocumentEdit, pending, accepted, applied, Outcome, apply_anchor_substitution,
  apply_anchor_substitution-Outcome,
}
use legalise.DocumentEdit.Resolver.{
  VersionKind, Notes, DocumentVersion, Store, maybe_close_version, ResolveResult, already_resolved,
  done, resolve_edit, find_edit, closing_version,
}
use legalise.DocumentEdit.Once.{maybe_close_version-once}
use legalise.DocumentEdit.Resolved.{Call, resolve_all, resolve_all-once}

abbrev shall : DocumentEdit
shall = record {
  id = 1;
  document_version_id = 10;
  deleted_text = some (codes "may");
  inserted_text = some (codes "shall");
  context_before = some (codes "he ");
  context_after = some (codes " pay");
  status = pending;
}

abbrev clause : Text
clause = codes "she may pay; he may pay"

-- The first place of the anchor is inside another word.
first_place : apply_anchor_substitution clause shall ≡ (codes "she shall pay; he may pay", applied)
unfolding apply_anchor_substitution
first_place = refl

apply_anchor_substitution-Outcome_example :
    Outcome
      (codes "he may pay")
      (codes "he shall pay")
      clause
      (apply_anchor_substitution clause shall)
apply_anchor_substitution-Outcome_example = apply_anchor_substitution-Outcome clause shall refl

abbrev draft : DocumentVersion
draft = record {
  id = 10;
  version_number = 2;
  kind = VersionKind.other_kind 0;
  created_by_id = 5;
  notes = Notes.other_notes 0;
  resolved_text = none;
}

abbrev store : Store
store = record {
  owner = 5;
  edits = shall ∷ [];
  versions = draft ∷ [];
  extracted_text = some clause;
  audits = [];
}

abbrev outcome : ResolveResult → Option DocumentVersion × Store
outcome (done closed after) = (closed, after)
outcome _ = (none, store)

abbrev resolved_store : Option DocumentVersion × Store
resolved_store = outcome (resolve_edit 1 5 true 11 store)

resolves : resolve_edit 1 5 true 11 store ≡ done resolved_store.0 resolved_store.1
unfolding resolve_edit
resolves = refl

-- The same edit once more, and an edit that does not exist.
abbrev more : List Call
more =
    record { edit_id = 1; actor_id = 5; accept = false; new_id = 12 }
    ∷ record { edit_id = 2; actor_id = 5; accept = true; new_id = 13 }
    ∷ []

resolve_all-once_example :
    (find_edit 1 (resolve_all more resolved_store.1).edits
      ≡ some (record shall { status = accepted }))
    × ((again : Bool) (other_id : ℕ)
        → resolve_edit 1 5 again other_id (resolve_all more resolved_store.1) ≡ already_resolved)
resolve_all-once_example =
    resolve_all-once 1 5 true 11 store resolved_store.1 resolved_store.0 shall refl resolves more

abbrev settled : Store
settled = record store { edits = record shall { status = accepted } ∷ [] }

closes : (maybe_close_version draft 5 11 settled).0 ≡ some (closing_version draft 5 11 settled)
unfolding maybe_close_version
closes = refl

maybe_close_version-once_example :
    maybe_close_version draft 5 12 (maybe_close_version draft 5 11 settled).1
    ≡ (none, (maybe_close_version draft 5 11 settled).1)
maybe_close_version-once_example =
    maybe_close_version-once draft 5 11 settled (closing_version draft 5 11 settled) refl closes
      (maybe_close_version draft 5 11 settled).1 [] 5 12 refl
