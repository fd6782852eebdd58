-- ===== src/DocumentEdit/Resolved.antt =====
-- An edit is resolved once, whatever is resolved after it.
use legalise.Base.{
  ℕ, ◌≡◌, refl, sym, ap, subst, ◌∙◌, inl, inr, Bool, true, false, List, [], ◌∷◌, Option, some, ◌==◌,
  ==_refl, ==_iff, ltb, arith, Bool-cases, Option-cases, eq_of_some_eq, true-false,
}
use legalise.DocumentEdit.Substitution.{DocumentEdit, EditStatus}
use legalise.DocumentEdit.Resolver.{
  DocumentVersion, edit_resolved, Store, max_number, has_pending, is_pending, maybe_close_version,
  find_edit, find_version, set_status, ResolveResult, not_found, already_resolved, done, new_status,
  resolve_found, resolve_edit,
}

-- A call of `resolve_edit`: the edit, the actor, the action and the identifier of a closing version.
pub record Call : Type 0 where
  pub edit_id : ℕ
  pub actor_id : ℕ
  pub accept : Bool
  pub new_id : ℕ

-- A call that raises leaves the store as it was.
abbrev pub left_by : ResolveResult → Store → Store
left_by (done closed after) s = after
left_by _ s = s

unfoldable pub resolve_all : List Call → Store → Store
resolve_all [] s = s
resolve_all (c ∷ cs) s =
    resolve_all cs (left_by (resolve_edit c.edit_id c.actor_id c.accept c.new_id s) s)

abbrev marked : EditStatus → DocumentEdit → Option DocumentEdit
marked status e = some (record e { status = status })

find_edit-id :
    (id : ℕ) (es : List DocumentEdit) (edit : DocumentEdit)
    → find_edit id es ≡ some edit
    → edit.id ≡ id
find_edit-id id [] edit h = cc
find_edit-id id (e ∷ es) edit h = elim (Bool-cases (e.id == id)) [
  | inl here ↦ sym (ap (λ x. x.id) (eq_of_some_eq (rw here at h))) ∙ (==_iff e.id id).0 here
  | inr elsewhere ↦ find_edit-id id es edit (rw elsewhere at h)
]

find_edit-set_status :
    (id : ℕ) (status : EditStatus) (es : List DocumentEdit) (edit : DocumentEdit)
    → find_edit id es ≡ some edit
    → find_edit id (set_status id status es) ≡ some (record edit { status = status })
find_edit-set_status id status [] edit h = cc
find_edit-set_status id status (e ∷ es) edit h = elim (Bool-cases (e.id == id)) [
  | inl here ↦
      let same = eq_of_some_eq (rw here at h) in rw here (rw here (ap (marked status) same))
  | inr elsewhere ↦
      rw elsewhere (rw elsewhere (find_edit-set_status id status es edit (rw elsewhere at h)))
]

-- What closing a version leaves in place.
Kept : ℕ → Store → Store → Type 0
Kept version_id s after =
    (after.edits ≡ s.edits)
    × (after.owner ≡ s.owner)
    × ((version : DocumentVersion)
        → find_version version_id s.versions ≡ some version
        → (w : DocumentVersion) × (find_version version_id after.versions ≡ some w))

found_after_cons :
    (id : ℕ) (v : DocumentVersion) (vs : List DocumentVersion) (version : DocumentVersion)
    → find_version id vs ≡ some version
    → (w : DocumentVersion) × (find_version id (v ∷ vs) ≡ some w)
found_after_cons id v vs version h = elim (Bool-cases (v.id == id)) [
  | inl here ↦ (v, rw here)
  | inr elsewhere ↦ (version, rw elsewhere h)
]

maybe_close_version-Kept :
    (version : DocumentVersion) (actor_id new_id id : ℕ) (s : Store)
    → Kept id s (maybe_close_version version actor_id new_id s).1
unfolding maybe_close_version Kept
maybe_close_version-Kept version actor_id new_id id s =
    elim (Bool-cases (has_pending version.id s.edits)) [
      | inl waiting ↦ rw waiting (refl, refl, (λ v h. (v, h)))
      | inr over ↦ elim (Bool-cases (ltb version.version_number (max_number s.versions))) [
        | inl newer ↦ rw (over, newer) (refl, refl, (λ v h. (v, h)))
        | inr latest ↦ rw (over, latest) (refl, refl, (λ v h. found_after_cons id _ s.versions v h))
      ]
    ]

new_status-resolved : (accept : Bool) → is_pending (new_status accept) ≡ false
new_status-resolved true = refl
new_status-resolved false = refl

find_edit-apart :
    (id other : ℕ) (status : EditStatus) (es : List DocumentEdit)
    → (other == id) ≡ false
    → find_edit id (set_status other status es) ≡ find_edit id es
find_edit-apart id other status [] h = refl
find_edit-apart id other status (e ∷ es) h = ground (arith, find_edit-apart id other status es, h)

-- The edit stands as it is, on a version of the owner's document.
abbrev Stands : ℕ → DocumentEdit → ℕ → Store → Type 0
Stands id edit owner s =
    (find_edit id s.edits ≡ some edit)
    × (s.owner ≡ owner)
    × (w : DocumentVersion) × (find_version edit.document_version_id s.versions ≡ some w)

resolve_edit-again :
    (id owner : ℕ) (edit : DocumentEdit) (s : Store)
    → is_pending edit.status ≡ false
    → Stands id edit owner s
    → (again : Bool) (new_id : ℕ) → resolve_edit id owner again new_id s ≡ already_resolved
unfolding resolve_edit resolve_found
resolve_edit-again id owner edit s over (found, owned, w, there) again new_id =
    rw (found, there, owned, ==_refl owner, over, resolve_edit, resolve_found)

module _ (id owner : ℕ) (edit : DocumentEdit) where
  -- What a call leaves of the edit, once the call has marked another edit.
  close-Stands :
      (version : DocumentVersion) (actor_id new_id : ℕ) (s : Store)
      → Stands id edit owner s
      → Stands id edit owner (maybe_close_version version actor_id new_id s).1
  unfolding Kept
  close-Stands version actor_id new_id s (found, owned, w, there) =
      let (same_edits, same_owner, still) =
        maybe_close_version-Kept version actor_id new_id edit.document_version_id s in
      let (x, kept) = still w there in
      (ap (find_edit id) same_edits ∙ found, same_owner ∙ owned, x, kept)

  resolve_edit-Stands :
      (edit_id actor_id : ℕ) (accept : Bool) (new_id : ℕ) (s : Store)
      → is_pending edit.status ≡ false
      → Stands id edit owner s
      → Stands id edit owner (left_by (resolve_edit edit_id actor_id accept new_id s) s)
  unfolding resolve_edit resolve_found
  resolve_edit-Stands edit_id actor_id accept new_id s over stands =
      elim (Option-cases (find_edit edit_id s.edits)) [
        | inl missing ↦ rw (missing, resolve_edit) stands
        | inr (other, found) ↦
            elim (Option-cases (find_version other.document_version_id s.versions)) [
              | inl missing ↦ rw (found, missing, resolve_edit) stands
              | inr (version, there) ↦ elim (Bool-cases (s.owner == actor_id)) [
                | inr stranger ↦ rw (found, there, stranger, resolve_edit) stands
                | inl owner_calls ↦ elim (Bool-cases (is_pending other.status)) [
                  | inr closed ↦
                      rw (found, there, owner_calls, closed, resolve_edit, resolve_found) stands
                  | inl open_edit ↦ elim (Bool-cases (other.id == id)) [
                    | inl same ↦
                        let named : edit_id ≡ id =
                          sym (find_edit-id edit_id s.edits other found)
                          ∙ (==_iff other.id id).0 same in
                        let its : other ≡ edit =
                          eq_of_some_eq
                            (sym found ∙ ap (λ i. find_edit i s.edits) named ∙ stands.0) in
                        absurd
                          (true-false (sym open_edit ∙ ap (λ e. is_pending e.status) its ∙ over))
                    | inr apart ↦
                        let (as_it_was, owned, w, kept) = stands in
                        rw (found, there, owner_calls, open_edit, resolve_edit, resolve_found)
                          (close-Stands version actor_id new_id
                            (record s {
                              edits = set_status other.id (new_status accept) s.edits;
                              audits = edit_resolved (new_status accept) other.id ∷ s.audits;
                            })
                            (
                              find_edit-apart id other.id (new_status accept) s.edits apart
                                  ∙ as_it_was,
                              owned,
                              w,
                              kept,
                            ))
                  ]
                ]
              ]
            ]
      ]

  resolve_all-Stands :
      (calls : List Call) (s : Store)
      → is_pending edit.status ≡ false
      → Stands id edit owner s
      → Stands id edit owner (resolve_all calls s)
  unfolding resolve_all
  resolve_all-Stands [] s over stands = stands
  resolve_all-Stands (c ∷ cs) s over stands =
      resolve_all-Stands cs (left_by (resolve_edit c.edit_id c.actor_id c.accept c.new_id s) s) over
        (resolve_edit-Stands c.edit_id c.actor_id c.accept c.new_id s over stands)

-- What a call that resolves the edit leaves of it.
abbrev Settled : ℕ → DocumentEdit → Bool → ℕ → ResolveResult → Type 0
Settled edit_id edit accept owner not_found = Unit
Settled edit_id edit accept owner already_resolved = Unit
Settled edit_id edit accept owner (done closed after) =
    Stands edit_id (record edit { status = new_status accept }) owner after

resolve_edit-Settled :
    (edit_id actor_id : ℕ) (accept : Bool) (new_id : ℕ) (s : Store) (edit : DocumentEdit)
    → find_edit edit_id s.edits ≡ some edit
    → Settled edit_id edit accept s.owner (resolve_edit edit_id actor_id accept new_id s)
unfolding resolve_edit resolve_found
resolve_edit-Settled edit_id actor_id accept new_id s edit found =
    elim (Option-cases (find_version edit.document_version_id s.versions)) [
      | inl missing ↦ rw (found, missing, resolve_edit) tt
      | inr (version, there) ↦ elim (Bool-cases (s.owner == actor_id)) [
        | inr stranger ↦ rw (found, there, stranger, resolve_edit) tt
        | inl owner ↦ elim (Bool-cases (is_pending edit.status)) [
          | inr over ↦ rw (found, there, owner, over, resolve_edit, resolve_found) tt
          | inl open_edit ↦
              rw (found, there, owner, open_edit, resolve_edit, resolve_found)
                (close-Stands edit_id s.owner (record edit { status = new_status accept }) version
                  actor_id new_id
                  (record s {
                    edits = set_status edit.id (new_status accept) s.edits;
                    audits = edit_resolved (new_status accept) edit.id ∷ s.audits;
                  })
                  (
                    ap (λ i. find_edit edit_id (set_status i (new_status accept) s.edits))
                          (find_edit-id edit_id s.edits edit found)
                        ∙ find_edit-set_status edit_id (new_status accept) s.edits edit found,
                    refl,
                    version,
                    there,
                  ))
        ]
      ]
    ]

-- An edit is resolved at most once: after a call that resolved it, whatever edits are resolved by
-- whomever after that, the edit keeps the status that this call gave it and all its texts, and a
-- call on it by the matter's owner, to accept or to reject, raises `EditAlreadyResolved`.
pub resolve_all-once :
    (edit_id actor_id : ℕ) (accept : Bool) (new_id : ℕ) (s after : Store)
    (closed : Option DocumentVersion) (edit : DocumentEdit)
    → find_edit edit_id s.edits ≡ some edit
    → resolve_edit edit_id actor_id accept new_id s ≡ done closed after
    → (calls : List Call)
    → (find_edit edit_id (resolve_all calls after).edits
        ≡ some (record edit { status = new_status accept }))
      × ((again : Bool) (other_id : ℕ)
          → resolve_edit edit_id s.owner again other_id (resolve_all calls after)
            ≡ already_resolved)
resolve_all-once edit_id actor_id accept new_id s after closed edit found h calls =
    let resolved = record edit { status = new_status accept } in
    let over : is_pending resolved.status ≡ false = new_status-resolved accept in
    let stands = resolve_all-Stands edit_id s.owner resolved calls after over (
      subst (Settled edit_id edit accept s.owner) h
        (resolve_edit-Settled edit_id actor_id accept new_id s edit found)) in
    (stands.0, resolve_edit-again edit_id s.owner resolved (resolve_all calls after) over stands)
