-- ===== src/Capabilities/Revoked.antt =====
-- What revoke of Capabilities.antt takes back.
use legalise.Base.{
  ℕ, ◌≡◌, refl, true, false, List, [], ◌∷◌, Option, ==_refl, Bool-cases, true-false, inl, inr,
  arith, All, ap, ◌&&◌, ◌∙◌, ◌==◌,
}
use legalise.Capabilities.{
  ScopeType, Grant, Subject, Database, subject_eq, grant_eq, exists_grant, effective, grant,
  delete_one, revoke,
}

-- A grant that equals the row for a subject's call is a grant of the subject.
grant_eq-effective :
    (s : Subject) (t : Option ScopeType) (i : Option ℕ) (g : Grant)
    → subject_eq s g ≡ false
    → grant_eq (effective s t i) g ≡ false
unfolding effective
grant_eq-effective s t i g h = ground arith

exists_grant-effective :
    (s : Subject) (t : Option ScopeType) (i : Option ℕ) (gs : List Grant)
    → exists_grant (subject_eq s) gs ≡ false
    → exists_grant (grant_eq (effective s t i)) gs ≡ false
exists_grant-effective s t i [] h = refl
exists_grant-effective s t i (g ∷ gs) h = elim (Bool-cases (subject_eq s g)) [
  | inl same ↦ absurd (true-false (rw (same) at h))
  | inr other ↦
      rw (grant_eq-effective s t i g other) (exists_grant-effective s t i gs (rw (other) at h))
]

subject_eq-effective :
    (s : Subject) (t : Option ScopeType) (i : Option ℕ) → subject_eq s (effective s t i) ≡ true
unfolding effective
subject_eq-effective s t i =
    rw (==_refl s.user_id, ==_refl s.plugin, ==_refl s.skill, ==_refl s.capability) refl

revoke-granted :
    (s : Subject) (t : Option ScopeType) (i : Option ℕ) (db : Database)
    → exists_grant (subject_eq s) db.grants ≡ false
    → revoke s (grant s t i db) ≡ db
unfolding grant revoke delete_one
revoke-granted s t i db h =
    rw (exists_grant-effective s t i db.grants h, subject_eq-effective s t i) refl

-- A row of one subject equals no row of another.
grant_eq-others :
    (s t : Subject) (scope : Option ScopeType) (i : Option ℕ) (g : Grant)
    → subject_eq s (effective t scope i) ≡ false
    → subject_eq s g ≡ true
    → grant_eq (effective t scope i) g ≡ false
unfolding effective
grant_eq-others s t scope i g apart its = ground (arith, apart, its)

-- Deleting a subject's row leaves every other subject's question whether its row exists as it was.
exists_grant-delete_one :
    (s t : Subject) (scope : Option ScopeType) (i : Option ℕ) (gs : List Grant)
    → subject_eq s (effective t scope i) ≡ false
    → exists_grant (grant_eq (effective t scope i)) (delete_one s gs)
      ≡ exists_grant (grant_eq (effective t scope i)) gs
unfolding delete_one
exists_grant-delete_one s t scope i [] apart = refl
exists_grant-delete_one s t scope i (g ∷ gs) apart = elim (Bool-cases (subject_eq s g)) [
  | inl its ↦ rw (its, grant_eq-others s t scope i g apart its)
  | inr other ↦ rw (other, exists_grant-delete_one s t scope i gs apart)
]

-- A call of `grant`.
pub record Call : Type 0 where
  pub subject : Subject
  pub scope_type : Option ScopeType
  pub scope_id : Option ℕ

unfoldable pub grant_all : List Call → Database → Database
unfolding grant
grant_all [] db = db
grant_all (c ∷ cs) db = grant_all cs (grant c.subject c.scope_type c.scope_id db)

-- The call is about another user, plugin, skill or capability.
abbrev pub IsOther : Subject → Call → Type 0
IsOther s c =
    (s.user_id == c.subject.user_id
      && s.plugin == c.subject.plugin
      && s.skill == c.subject.skill
      && s.capability == c.subject.capability)
    ≡ false

revoke-grant_other :
    (s : Subject) (c : Call) (db : Database)
    → IsOther s c
    → revoke s (grant c.subject c.scope_type c.scope_id db)
      ≡ grant c.subject c.scope_type c.scope_id (revoke s db)
unfolding grant revoke delete_one effective
revoke-grant_other s c db apart =
    let row = effective c.subject c.scope_type c.scope_id in
    let same = exists_grant-delete_one s c.subject c.scope_type c.scope_id db.grants apart in
    elim (Bool-cases (exists_grant (grant_eq row) db.grants)) [
      | inl there ↦ rw (same, there) refl
      | inr new ↦ rw (same, new, apart) refl
    ]

revoke-grant_all :
    (s : Subject) (cs : List Call) (db : Database)
    → All (IsOther s) cs
    → revoke s (grant_all cs db) ≡ grant_all cs (revoke s db)
unfolding grant_all
revoke-grant_all s [] db others = refl
revoke-grant_all s (c ∷ cs) db others =
    revoke-grant_all s cs (grant c.subject c.scope_type c.scope_id db) others.1
    ∙ ap (grant_all cs) (revoke-grant_other s c db others.0)

-- Revoking takes back exactly the grant: if a subject without a grant gets one, in any scope, and
-- then any others get grants, then revoking the subject's leaves the database that the others'
-- grants alone lead to.
pub revoke-grant :
    (s : Subject) (t : Option ScopeType) (i : Option ℕ) (db : Database) (others : List Call)
    → exists_grant (subject_eq s) db.grants ≡ false
    → All (IsOther s) others
    → revoke s (grant_all others (grant s t i db)) ≡ grant_all others db
revoke-grant s t i db others free apart =
    revoke-grant_all s others (grant s t i db) apart
    ∙ ap (grant_all others) (revoke-granted s t i db free)
