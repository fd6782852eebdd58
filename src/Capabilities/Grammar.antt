-- ===== src/Capabilities/Grammar.antt =====
-- The texts that name a capability (is_valid_capability_string and capability_scope of
-- backend/app/core/capabilities.py), and the capabilities that a module declares for a skill.
use legalise.Base.Text.{Text, codes, text_eq}
use legalise.Base.{
  ℕ, Bool, true, false, not, ◌&&◌, ◌||◌, List, [], ◌∷◌, Option, none, some, ◌==◌, leb,
  if◌then◌else◌, is_none,
}

-- CAPABILITY_VOCABULARY
abbrev pub capability_vocabulary : List Text
capability_vocabulary =
    codes "matter.read"
    ∷ codes "document.body.read"
    ∷ codes "document.generated.write"
    ∷ codes "model.invoke"
    ∷ codes "chronology.read"
    ∷ codes "chronology.write"
    ∷ codes "citation.write"
    ∷ []

abbrev pub is_listed : Text → List Text → Bool
is_listed value [] = false
is_listed value (t ∷ ts) = text_eq value t || is_listed value ts

-- `[a-z]` and `[a-z0-9_]`
abbrev is_lower : ℕ → Bool
is_lower c = leb 97 c && leb c 122

abbrev is_word : ℕ → Bool
is_word c = is_lower c || (leb 48 c && leb c 57) || c == 95

-- `$` also matches before a line break that ends the text.
abbrev at_end : Text → Bool
at_end [] = true
at_end (c ∷ []) = c == 10
at_end (_ ∷ _ ∷ _) = false

-- The rest of the pattern: `dotted` after a second segment has begun, `begins` where one begins.
unfoldable pub segments : Bool → Bool → Text → Bool
segments dotted true [] = false
segments dotted true (c ∷ text) = is_lower c && segments dotted false text
segments dotted false [] = dotted
segments dotted false (c ∷ text) =
    let more = segments dotted false text in
    let next = segments true true text in
    if is_word c then more else if c == 46 then next else dotted && at_end (c ∷ text)

abbrev pub after : Text → Text → Option Text
after [] text = some text
after (_ ∷ _) [] = none
after (c ∷ prefix) (d ∷ text) = if c == d then after prefix text else none

abbrev rest_matches : Option Text → Bool
rest_matches none = false
rest_matches (some text) = segments false true text

-- The scope of a text that matches `_V2_GRAMMAR_RE`, which is what stands before its first dot.
unfoldable pub match_grammar : Text → Option Text
unfolding segments
match_grammar value =
    if rest_matches (after (codes "matter.") value)
    then some (codes "matter")
    else if rest_matches (after (codes "workspace.") value)
    then some (codes "workspace")
    else if rest_matches (after (codes "global.") value)
    then some (codes "global")
    else none

unfoldable pub is_valid_capability_string : Text → Bool
unfolding match_grammar
is_valid_capability_string value =
    is_listed value capability_vocabulary || not (is_none (match_grammar value))

unfoldable pub capability_scope : Text → Option Text
unfolding match_grammar
capability_scope value = if is_listed value capability_vocabulary then none else match_grammar value

-- The values of a payload that are told apart. A key that is absent is `none`.
pub data Entry : Type 0 where
  name : Text → Entry
  other : Entry

pub data Declared : Type 0 where
  entries : List Entry → Declared
  not_list : Declared

-- An element of `skills`: its `capabilities`, if it is a dict.
pub data Skill : Type 0 where
  skill : Option Declared → Skill
  not_dict : Skill

-- A payload that is a dict: `skills`, if it is one, and `capabilities`.
pub record ModulePayload : Type 0 where
  pub skills : Option (List (Text × Skill))
  pub capabilities : Option Declared

unfoldable pub names_of : List Entry → List Text
names_of [] = []
names_of (name t ∷ es) = t ∷ names_of es
names_of (other ∷ es) = names_of es

abbrev listed : Option Declared → List Text
listed (some (entries es)) = names_of es
listed _ = []

abbrev find_skill : Text → List (Text × Skill) → Option Skill
find_skill slug [] = none
find_skill slug ((t, s) ∷ more) = if text_eq t slug then some s else find_skill slug more

abbrev skill_of : Text → Option (List (Text × Skill)) → Option Skill
skill_of slug none = none
skill_of slug (some skills) = find_skill slug skills

abbrev override_or : Option Skill → Option Declared → List Text
override_or (some (skill (some declared))) plugin = listed (some declared)
override_or _ plugin = listed plugin

unfoldable pub declared_capabilities_for_skill : Option ModulePayload → Text → List Text
unfolding names_of
declared_capabilities_for_skill none slug = []
declared_capabilities_for_skill (some p) slug = override_or (skill_of slug p.skills) p.capabilities
