-- ===== src/DocumentEdit/Once.antt =====
-- A version is closed once.
use legalise.Base.{
  ℕ, ◌<◌, ◌≤◌, ◌≡◌, ap, inl, inr, true, List, [], ◌∷◌, ◌++◌, none, some, ◌==◌, ltb, arith,
  Bool-cases, eq_of_some_eq,
}
use legalise.DocumentEdit.Resolver.{
  DocumentVersion, Store, max_number, has_pending, closing_version, maybe_close_version,
  find_version,
}

max_number-append : (ws vs : List DocumentVersion) → max_number vs ≤ max_number (ws ++ vs)
max_number-append [] vs = omega arith
max_number-append (w ∷ ws) vs = ground (arith, max_number-append ws vs)

find_version-bounded :
    (id : ℕ) (vs : List DocumentVersion) (v : DocumentVersion)
    → find_version id vs ≡ some v
    → v.version_number ≤ max_number vs
find_version-bounded id [] v h = cc
find_version-bounded id (w ∷ vs) v h = elim (Bool-cases (w.id == id)) [
  | inl here ↦
      let same = eq_of_some_eq (rw here at h) in ground (arith, ap (λ x. x.version_number) same)
  | inr elsewhere ↦ ground (arith, find_version-bounded id vs v (rw elsewhere at h))
]

stays_open :
    (version : DocumentVersion) (actor_id new_id : ℕ) (s : Store)
    → version.version_number < max_number s.versions
    → maybe_close_version version actor_id new_id s ≡ (none, s)
unfolding maybe_close_version
stays_open version actor_id new_id s h = elim (Bool-cases (has_pending version.id s.edits)) [
  | inl waiting ↦ rw waiting
  | inr over ↦
      let newer : ltb version.version_number (max_number s.versions) ≡ true = ground (arith, h) in
      rw (over, newer)
]

passed_by :
    (version : DocumentVersion) (actor_id new_id : ℕ) (s : Store) (closed : DocumentVersion)
    → version.version_number ≤ max_number s.versions
    → (maybe_close_version version actor_id new_id s).0 ≡ some closed
    → version.version_number < max_number (maybe_close_version version actor_id new_id s).1.versions
unfolding maybe_close_version closing_version
passed_by version actor_id new_id s closed bounded h =
    elim (Bool-cases (has_pending version.id s.edits)) [
      | inl waiting ↦ cc (rw (waiting, maybe_close_version) at h)
      | inr over ↦ elim (Bool-cases (ltb version.version_number (max_number s.versions))) [
        | inl newer ↦ cc (rw (over, newer, maybe_close_version) at h)
        | inr latest ↦ rw (over, latest) (ground (arith, bounded))
      ]
    ]

-- Once a version of the document has been closed, no later attempt closes it again or writes
-- anything, whatever happened to the edits in between, as long as no version is taken away.
pub maybe_close_version-once :
    (version : DocumentVersion) (actor_id new_id : ℕ) (s : Store) (closed : DocumentVersion)
    → find_version version.id s.versions ≡ some version
    → (maybe_close_version version actor_id new_id s).0 ≡ some closed
    → (later : Store) (newer : List DocumentVersion) (other_actor other_id : ℕ)
    → later.versions ≡ newer ++ (maybe_close_version version actor_id new_id s).1.versions
    → maybe_close_version version other_actor other_id later ≡ (none, later)
maybe_close_version-once version actor_id new_id s closed known h later newer other_actor other_id
      grown =
    let after = (maybe_close_version version actor_id new_id s).1.versions in
    let reached =
      passed_by version actor_id new_id s closed
        (find_version-bounded version.id s.versions version known) h in
    stays_open version other_actor other_id later
      (omega (arith, reached, max_number-append newer after, ap max_number grown))
