-- ===== src/DocumentEdit/Resolver.antt =====
-- The resolution of one edit and of all edits of a version, on the rows of one document and its
-- matter. Texts are read and written, identifiers and times are numbers. The advisory lock and the
-- conditional update make the calls on a version a sequence.
use legalise.Base.{
  ℕ, ◌+◌, Bool, true, false, ◌&&◌, ◌||◌, List, [], ◌∷◌, Option, none, some, ◌==◌, if◌then◌else◌,
  ltb, length,
}
use legalise.Base.Text.{Text}
use legalise.DocumentEdit.Substitution.{
  DocumentEdit, EditStatus, pending, accepted, rejected, SubstitutionStatus, skipped_no_anchor,
  is_accepted, or_empty, apply_all_accepted,
}

pub data VersionKind : Type 0 where
  user_accept user_reject : VersionKind
  other_kind : ℕ → VersionKind

-- The `notes` of a version that a resolution creates, and any others.
pub data Notes : Type 0 where
  -- the version that was resolved, and how many edits were accepted, rejected and skipped
  resolved : ℕ → ℕ → ℕ → ℕ → Notes
  bulk_on_resolved : ℕ → Notes
  other_notes : ℕ → Notes

pub record DocumentVersion : Type 0 where
  pub id : ℕ
  pub version_number : ℕ
  pub kind : VersionKind
  pub created_by_id : ℕ
  pub notes : Notes
  pub resolved_text : Option Text

pub data AuditRow : Type 0 where
  -- `document.edit.accepted` or `document.edit.rejected`, for an edit
  edit_resolved : EditStatus → ℕ → AuditRow
  resolution_skipped : ℕ → SubstitutionStatus → AuditRow
  version_resolved : ℕ → VersionKind → AuditRow

pub record Store : Type 0 where
  pub owner : ℕ
  pub edits : List DocumentEdit
  pub versions : List DocumentVersion
  pub extracted_text : Option Text
  pub audits : List AuditRow

-- `coalesce(max(version_number), 0)`
abbrev pub max_number : List DocumentVersion → ℕ
max_number [] = 0
max_number (v ∷ vs) =
    let rest = max_number vs in if ltb v.version_number rest then rest else v.version_number

-- The version with a resolved text and the highest number.
abbrev pub latest_resolved : List DocumentVersion → Option DocumentVersion
latest_resolved [] = none
latest_resolved (v ∷ vs) =
    let rest = latest_resolved vs in
    elim v.resolved_text [
      | none ↦ rest
      | some text ↦ elim rest [
        | none ↦ some v
        | some w ↦ if ltb v.version_number w.version_number then some w else some v
      ]
    ]

unfoldable pub get_base_text : Store → Text
get_base_text s = elim (latest_resolved s.versions) [
  | some v ↦ or_empty v.resolved_text
  | none ↦ or_empty s.extracted_text
]

abbrev pub is_pending : EditStatus → Bool
is_pending pending = true
is_pending _ = false

abbrev pub has_pending : ℕ → List DocumentEdit → Bool
has_pending version_id [] = false
has_pending version_id (e ∷ es) =
    e.document_version_id == version_id && is_pending e.status || has_pending version_id es

-- The accepted edits of a version, in the order of the rows.
abbrev pub accepted_edits : ℕ → List DocumentEdit → List DocumentEdit
accepted_edits version_id [] = []
accepted_edits version_id (e ∷ es) =
    let rest = accepted_edits version_id es in
    if e.document_version_id == version_id && is_accepted e.status then e ∷ rest else rest

abbrev pub is_rejected : EditStatus → Bool
is_rejected rejected = true
is_rejected _ = false

abbrev pub rejected_count : ℕ → List DocumentEdit → ℕ
rejected_count version_id [] = 0
rejected_count version_id (e ∷ es) =
    let rest = rejected_count version_id es in
    if e.document_version_id == version_id && is_rejected e.status then rest + 1 else rest

abbrev pub is_skipped : SubstitutionStatus → Bool
is_skipped skipped_no_anchor = true
is_skipped _ = false

abbrev pub skipped_count : List SubstitutionStatus → ℕ
skipped_count [] = 0
skipped_count (st ∷ sts) = let rest = skipped_count sts in if is_skipped st then rest + 1 else rest

-- The rows `document.edit.resolution_skipped`, newest first.
abbrev pub log_skipped : List DocumentEdit → List SubstitutionStatus → List AuditRow → List AuditRow
log_skipped (e ∷ es) (st ∷ sts) rows =
    log_skipped es sts (if is_skipped st then resolution_skipped e.id st ∷ rows else rows)
log_skipped _ _ rows = rows

abbrev pub is_none_accepted : List DocumentEdit → Bool
is_none_accepted [] = true
is_none_accepted (e ∷ es) = false

-- The closing version of a version, with the identifier `new_id`.
unfoldable pub closing_version : DocumentVersion → ℕ → ℕ → Store → DocumentVersion
unfolding get_base_text apply_all_accepted
closing_version version actor_id new_id s =
    let edits = accepted_edits version.id s.edits in
    let (resolved_text, statuses) = apply_all_accepted (get_base_text s) edits in
    record {
      id = new_id;
      version_number = max_number s.versions + 1;
      kind = if is_none_accepted edits then user_reject else user_accept;
      created_by_id = actor_id;
      notes =
          resolved version.id (length edits) (rejected_count version.id s.edits)
            (skipped_count statuses);
      resolved_text = some resolved_text;
    }

-- `_maybe_close_version`; the pair of the source is the version with its text.
unfoldable pub maybe_close_version :
    DocumentVersion → ℕ → ℕ → Store → Option DocumentVersion × Store
unfolding closing_version
maybe_close_version version actor_id new_id s =
    if has_pending version.id s.edits
    then (none, s)
    else if ltb version.version_number (max_number s.versions)
    then (none, s)
    else (let new_version = closing_version version actor_id new_id s in
        let edits = accepted_edits version.id s.edits in
        let (_, statuses) = apply_all_accepted (get_base_text s) edits in
        (
          some new_version,
          record s {
            versions = new_version ∷ s.versions;
            audits =
                version_resolved new_version.id new_version.kind
                ∷ log_skipped edits statuses s.audits;
          },
        ))

abbrev pub find_edit : ℕ → List DocumentEdit → Option DocumentEdit
find_edit id [] = none
find_edit id (e ∷ es) = if e.id == id then some e else find_edit id es

abbrev pub find_version : ℕ → List DocumentVersion → Option DocumentVersion
find_version id [] = none
find_version id (v ∷ vs) = if v.id == id then some v else find_version id vs

-- `UPDATE … SET status` on one row.
abbrev pub set_status : ℕ → EditStatus → List DocumentEdit → List DocumentEdit
set_status id status [] = []
set_status id status (e ∷ es) =
    if e.id == id then record e { status = status } ∷ es else e ∷ set_status id status es

pub data ResolveResult : Type 0 where
  -- `LookupError` and `EditAlreadyResolved`
  not_found already_resolved : ResolveResult
  done : Option DocumentVersion → Store → ResolveResult

abbrev pub new_status : Bool → EditStatus
new_status true = accepted
new_status false = rejected

-- `resolve_edit` on the rows that its join found; `accept` is the action.
unfoldable pub resolve_found : DocumentEdit → DocumentVersion → ℕ → Bool → ℕ → Store → ResolveResult
unfolding maybe_close_version
resolve_found edit version actor_id accept new_id s =
    if is_pending edit.status
    then (let (closed, after) = maybe_close_version version actor_id new_id (record s {
      edits = set_status edit.id (new_status accept) s.edits;
      audits = edit_resolved (new_status accept) edit.id ∷ s.audits;
    }) in
        done closed after)
    else already_resolved

unfoldable pub resolve_edit : ℕ → ℕ → Bool → ℕ → Store → ResolveResult
unfolding resolve_found
resolve_edit edit_id actor_id accept new_id s = elim (find_edit edit_id s.edits) [
  | none ↦ not_found
  | some edit ↦ elim (find_version edit.document_version_id s.versions) [
    | none ↦ not_found
    | some version ↦
        if s.owner == actor_id
        then resolve_found edit version actor_id accept new_id s
        else not_found
  ]
]
