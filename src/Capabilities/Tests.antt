-- ===== src/Capabilities/Tests.antt =====
-- Grants of one capability in two scopes.
use legalise.Capabilities.Grammar.{is_valid_capability_string, match_grammar, capability_scope}
use legalise.Capabilities.{revoke}
use legalise.Capabilities.Revoked.{Call, grant_all, revoke-grant}
use legalise.Base.Text.{codes}
use legalise.Base.{
  List, true, false, ◌++◌, ◌≡◌, refl, ◌&&◌, ◌||◌, [], ◌∷◌, none, some, if◌then◌else◌,
}
use legalise.Capabilities.{
  matter, Subject, Database, capability_denied, blocked, require_capability, grant, grant_many,
  acting, check_or_block,
}
use legalise.Capabilities.Scopes.{
  issued_scope, scope_eq, same_subject, require_capability-grant, check_or_block-rows,
}

abbrev reader : Subject
reader = record { user_id = 1; plugin = 2; skill = 3; capability = 4 }

abbrev no_grants : Database
no_grants = record { grants = []; audits = [] }

-- A second grant of the same row is no second row.
granted_twice :
    (grant_many 1 2 3 (4 ∷ 4 ∷ 5 ∷ []) no_grants).grants
    ≡ (grant_many 1 2 3 (4 ∷ 5 ∷ []) no_grants).grants
unfolding grant_many
granted_twice = refl

require_capability-grant_example :
    (require_capability reader (some 7) (grant reader (some matter) (some 7) no_grants)).0 ≡ (
      (same_subject reader reader && scope_eq (issued_scope (some matter) (some 7)) (some 7))
      || (require_capability reader (some 7) no_grants).0)
require_capability-grant_example =
    require_capability-grant reader reader (some 7) (some matter) (some 7) no_grants

check_or_block-rows_example :
    let (allowed, after) = check_or_block reader 9 none (some 7) no_grants in
    (allowed ≡ (require_capability reader none no_grants).0)
    × (after.grants ≡ [])
    × (after.audits ≡ (
        if allowed
        then []
        else blocked 9 (acting reader none) (some 7) reader ∷ capability_denied reader none ∷ []))
check_or_block-rows_example = check_or_block-rows reader 9 none (some 7) no_grants

-- A line break at the end is no part of the grammar, but `$` lets it pass.
trailing_line_break : is_valid_capability_string (codes "matter.notes.read" ++ 10 ∷ []) ≡ true
unfolding is_valid_capability_string match_grammar
trailing_line_break = refl

legacy_has_no_scope : capability_scope (codes "matter.read") ≡ none
unfolding capability_scope
legacy_has_no_scope = refl

abbrev in_both : Database
in_both = grant reader none none (grant reader (some matter) (some 7) no_grants)

-- Without a scope, a revocation takes the workspace's grant and leaves the matter's.
revoked_in_one_scope :
    ((require_capability reader none (revoke reader in_both)).0 ≡ false)
    × ((require_capability reader (some 7) (revoke reader in_both)).0 ≡ true)
unfolding require_capability revoke grant
revoked_in_one_scope = (refl, refl)

abbrev writer : Subject
writer = record reader { capability = 5 }

abbrev to_writer : List Call
to_writer = record { subject = writer; scope_type = none; scope_id = none } ∷ []

revoke-grant_example :
    revoke reader (grant_all to_writer (grant reader (some matter) (some 7) no_grants))
    ≡ grant_all to_writer no_grants
revoke-grant_example =
    revoke-grant reader (some matter) (some 7) no_grants to_writer refl (refl, tt)
