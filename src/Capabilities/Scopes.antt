-- ===== src/Capabilities/Scopes.antt =====
-- A grant opens exactly the scope that it was issued at.
use legalise.Base.{
  ℕ, ◌≡◌, refl, ◌∙◌, inl, inr, Bool, true, false, ◌&&◌, ◌||◌, List, [], ◌∷◌, Option, none, some,
  ◌==◌, opt_eq, if◌then◌else◌, arith, Bool-cases,
}
use legalise.Capabilities.{
  ScopeType, workspace, matter, Grant, Subject, grant_eq, capability_denied, blocked, Database,
  exists_grant, satisfies, require_capability, effective, grant, acting, check_or_block,
}

-- The scope of an issued grant, as the matter that `require_capability` must be asked for it with.
-- `none` is a grant that no question reaches.
abbrev pub issued_scope : Option ScopeType → Option ℕ → Option (Option ℕ)
issued_scope none scope_id = some none
issued_scope (some workspace) scope_id = some none
issued_scope (some matter) none = none
issued_scope (some matter) (some matter_id) = some (some matter_id)
issued_scope (some (ScopeType.other n)) scope_id = none

abbrev pub scope_eq : Option (Option ℕ) → Option ℕ → Bool
scope_eq none asked = false
scope_eq (some scope) asked = opt_eq scope asked

abbrev pub same_subject : Subject → Subject → Bool
same_subject s t =
    s.user_id == t.user_id
    && s.plugin == t.plugin
    && s.skill == t.skill
    && s.capability == t.capability

and_false : (b : Bool) → (b && false) ≡ false
and_false true = refl
and_false false = refl

and_true : (b : Bool) → (b && true) ≡ b
and_true true = refl
and_true false = refl

satisfies-effective :
    (s t : Subject) (asked : Option ℕ) (scope_type : Option ScopeType) (scope_id : Option ℕ)
    → satisfies s asked (effective t scope_type scope_id)
      ≡ (same_subject s t && scope_eq (issued_scope scope_type scope_id) asked)
unfolding satisfies effective
satisfies-effective s t none none scope_id = ground arith
satisfies-effective s t (some m) none scope_id = ground arith
satisfies-effective s t none (some workspace) scope_id = ground arith
satisfies-effective s t (some m) (some workspace) scope_id = ground arith
satisfies-effective s t none (some matter) scope_id = ground arith
satisfies-effective s t (some m) (some matter) scope_id = ground arith
satisfies-effective s t none (some (ScopeType.other n)) scope_id = ground arith
satisfies-effective s t (some m) (some (ScopeType.other n)) scope_id = ground arith

satisfies-same :
    (s : Subject) (asked : Option ℕ) (g h : Grant)
    → grant_eq g h ≡ true
    → satisfies s asked g ≡ true
    → satisfies s asked h ≡ true
unfolding satisfies
satisfies-same s none g h e k = ground arith
satisfies-same s (some m) g h e k = ground arith

exists-same :
    (s : Subject) (asked : Option ℕ) (row : Grant) (gs : List Grant)
    → exists_grant (grant_eq row) gs ≡ true
    → satisfies s asked row ≡ true
    → exists_grant (satisfies s asked) gs ≡ true
exists-same s asked row [] h k = cc
exists-same s asked row (g ∷ gs) h k =
    ground (arith, exists-same s asked row gs, satisfies-same s asked row g)

allowed-exists :
    (s : Subject) (asked : Option ℕ) (db : Database)
    → (require_capability s asked db).0 ≡ exists_grant (satisfies s asked) db.grants
unfolding require_capability
allowed-exists s asked db = elim (Bool-cases (exists_grant (satisfies s asked) db.grants)) [
  | inl held ↦ rw held
  | inr missing ↦ rw missing
]

absorbed : (a b : Bool) → (a ≡ true → b ≡ true) → b ≡ (a || b)
absorbed true b h = h refl
absorbed false b h = refl

-- After a grant, a check passes exactly when it passed before, or asks the same user, plugin, skill
-- and capability in the very scope of the grant: a workspace grant opens no matter, a matter's
-- grant opens neither the workspace nor another matter.
pub require_capability-grant :
    (s t : Subject) (asked : Option ℕ) (scope_type : Option ScopeType) (scope_id : Option ℕ)
    (db : Database)
    → (require_capability s asked (grant t scope_type scope_id db)).0 ≡ (
        (same_subject s t && scope_eq (issued_scope scope_type scope_id) asked)
        || (require_capability s asked db).0)
unfolding grant
require_capability-grant s t asked scope_type scope_id db =
    let row = effective t scope_type scope_id in
    let reaches = satisfies-effective s t asked scope_type scope_id in
    rw (allowed-exists s asked db, ← reaches)
      (elim (Bool-cases (exists_grant (grant_eq row) db.grants)) [
        | inl conflict ↦ rw conflict (
            allowed-exists s asked db
            ∙ absorbed (satisfies s asked row) _ (exists-same s asked row db.grants conflict))
        | inr fresh ↦ rw fresh (allowed-exists s asked (record db { grants = row ∷ db.grants }))
      ])

-- `check_or_block` asks for the workspace's scope, also when it is told a matter. A denial leaves the
-- grants alone and commits exactly two audit rows: the denial and, after it, the canonical row. A
-- check that passes writes nothing.
pub check_or_block-rows :
    (s : Subject) (action : ℕ) (actor asked : Option ℕ) (db : Database)
    → let (allowed, after) = check_or_block s action actor asked db in
      (allowed ≡ (require_capability s none db).0)
      × (after.grants ≡ db.grants)
      × (after.audits ≡ (
          if allowed
          then db.audits
          else blocked action (acting s actor) asked s ∷ capability_denied s none ∷ db.audits))
unfolding check_or_block require_capability
check_or_block-rows s action actor asked db =
    elim (Bool-cases (exists_grant (satisfies s none) db.grants)) [
      | inl held ↦ rw held (refl, refl, refl)
      | inr missing ↦ rw missing (refl, refl, refl)
    ]
