-- ===== src/DocumentEdit/Substitution.antt =====
-- The substitution of an edit at its anchor, and that of all accepted edits.
use mathlib.Core.List.{append-nil}
use legalise.Base.{
  ℕ, suc, ◌<◌, ◌≡◌, refl, sym, ap, subst, ◌∙◌, ◌≢◌, inl, inr, Bool, true, false, not, ◌&&◌, List,
  [], ◌∷◌, ◌++◌, Option, none, some, ◌==◌, ==_refl, if◌then◌else◌, length, arith, Bool-cases,
  Option-cases, eq_of_some_eq,
}
use legalise.Base.Text.{Text}

pub data EditStatus : Type 0 where
  pending accepted rejected : EditStatus

pub record DocumentEdit : Type 0 where
  pub id : ℕ
  pub document_version_id : ℕ
  pub deleted_text : Option Text
  pub inserted_text : Option Text
  pub context_before : Option Text
  pub context_after : Option Text
  pub status : EditStatus

pub data SubstitutionStatus : Type 0 where
  applied skipped_no_anchor not_accepted : SubstitutionStatus

-- `value or ""`
abbrev pub or_empty : Option Text → Text
or_empty none = []
or_empty (some t) = t

abbrev pub is_empty_text : Text → Bool
is_empty_text [] = true
is_empty_text (c ∷ t) = false

-- What follows a prefix; `none` if the text does not start with it.
abbrev pub strip_prefix : Text → Text → Option Text
strip_prefix [] text = some text
strip_prefix (c ∷ sub) [] = none
strip_prefix (c ∷ sub) (d ∷ text) = if c == d then strip_prefix sub text else none

-- `text.replace(sub, replacement, 1)`, where `none` says that `sub in text` fails.
unfoldable pub replace_first : Text → Text → Text → Option Text
replace_first sub replacement [] = elim (strip_prefix sub []) [
  | none ↦ none
  | some rest ↦ some (replacement ++ rest)
]
replace_first sub replacement (c ∷ text) =
    let later = replace_first sub replacement text in
    elim (strip_prefix sub (c ∷ text)) [
      | some rest ↦ some (replacement ++ rest)
      | none ↦ elim later [ none ↦ none | some t ↦ some (c ∷ t) ]
    ]

-- The fall back on the bare `deleted_text`.
unfoldable pub substitute_bare : Text → Text → Text → Text → Text → Text × SubstitutionStatus
unfolding replace_first
substitute_bare base_text before after deleted inserted =
    if is_empty_text before && is_empty_text after && not (is_empty_text deleted)
    then elim (replace_first deleted inserted base_text) [
      | none ↦ (base_text, skipped_no_anchor)
      | some t ↦ (t, applied)
    ]
    else (base_text, skipped_no_anchor)

unfoldable pub substitute : Text → Text → Text → Text → Text → Text × SubstitutionStatus
unfolding replace_first substitute_bare
substitute base_text before after deleted inserted =
    if is_empty_text deleted && is_empty_text inserted
    then (base_text, applied)
    else if is_empty_text (before ++ deleted ++ after)
    then substitute_bare base_text before after deleted inserted
    else elim (replace_first (before ++ deleted ++ after) (before ++ inserted ++ after) base_text) [
      | some t ↦ (t, applied)
      | none ↦ substitute_bare base_text before after deleted inserted
    ]

unfoldable pub apply_anchor_substitution : Text → DocumentEdit → Text × SubstitutionStatus
unfolding substitute
apply_anchor_substitution base_text edit =
    substitute base_text (or_empty edit.context_before) (or_empty edit.context_after)
      (or_empty edit.deleted_text) (or_empty edit.inserted_text)

unfoldable pub is_accepted : EditStatus → Bool
is_accepted accepted = true
is_accepted _ = false

unfoldable pub apply_all_accepted : Text → List DocumentEdit → Text × List SubstitutionStatus
unfolding apply_anchor_substitution is_accepted
apply_all_accepted base_text [] = (base_text, [])
apply_all_accepted base_text (e ∷ edits) =
    let (text_out, status) =
      if is_accepted e.status
      then apply_anchor_substitution base_text e
      else (base_text, not_accepted) in
    let (final, statuses) = apply_all_accepted text_out edits in (final, status ∷ statuses)

-- The text has the anchor after a prefix.
abbrev pub OccursAfter : Text → Text → Text → Type 0
OccursAfter sub text front = (rest : Text) × (text ≡ front ++ (sub ++ rest))

strip_prefix-some : (sub text rest : Text) → strip_prefix sub text ≡ some rest → text ≡ sub ++ rest
strip_prefix-some [] text rest h = eq_of_some_eq h
strip_prefix-some (c ∷ sub) [] rest h = cc
strip_prefix-some (c ∷ sub) (d ∷ text) rest h = ground (arith, strip_prefix-some sub text rest)

strip_prefix-append : (sub rest : Text) → strip_prefix sub (sub ++ rest) ≡ some rest
strip_prefix-append [] rest = refl
strip_prefix-append (c ∷ sub) rest = rw (==_refl c, strip_prefix-append sub rest)

-- The first place: a text around the anchor, with no place before it.
abbrev pub FirstReplaced : Text → Text → Text → Text → Type 0
FirstReplaced sub replacement text result =
    (front : Text) × (rest : Text) × (text ≡ front ++ (sub ++ rest))
    × (result ≡ front ++ (replacement ++ rest))
    × ((other : Text) → length other < length front → ¬ OccursAfter sub text other)

abbrev pub Replaced : Text → Text → Text → Option Text → Type 0
Replaced sub replacement text none = (front : Text) → ¬ OccursAfter sub text front
Replaced sub replacement text (some result) = FirstReplaced sub replacement text result

not_at_start : (sub text : Text) → strip_prefix sub text ≡ none → ¬ OccursAfter sub text []
not_at_start sub text h (rest, starts) =
    cc (h, ap (strip_prefix sub) starts, strip_prefix-append sub rest)

no_head :
    (front more : Text) (sub text : Text) (c d : ℕ)
    → c ∷ text ≡ (d ∷ front) ++ more
    → text ≡ front ++ more
no_head front more sub text c d h = ground arith

at_start :
    (sub replacement text rest : Text)
    → strip_prefix sub text ≡ some rest
    → FirstReplaced sub replacement text (replacement ++ rest)
at_start sub replacement text rest h = (
  [],
  rest,
  strip_prefix-some sub text rest h,
  refl,
  (λ other short. absurd (omega (arith, short))),
)

nowhere :
    (sub text : Text) (c : ℕ)
    → strip_prefix sub (c ∷ text) ≡ none
    → ((more : Text) → ¬ OccursAfter sub text more)
    → (front : Text) → ¬ OccursAfter sub (c ∷ text) front
nowhere sub text c h r [] = not_at_start sub (c ∷ text) h
nowhere sub text c h r (d ∷ more) = λ p. r more (p.0, no_head more (sub ++ p.0) sub text c d p.1)

not_before :
    (sub text front : Text) (c : ℕ)
    → strip_prefix sub (c ∷ text) ≡ none
    → ((other : Text) → length other < length front → ¬ OccursAfter sub text other)
    → (other : Text) → length other < suc (length front)
    → ¬ OccursAfter sub (c ∷ text) other
not_before sub text front c h r [] short = not_at_start sub (c ∷ text) h
not_before sub text front c h r (d ∷ more) short =
    λ p. r more (omega (arith, short)) (p.0, no_head more (sub ++ p.0) sub text c d p.1)

not_in_empty :
    (sub : Text) → strip_prefix sub [] ≡ none → (front : Text) → ¬ OccursAfter sub [] front
not_in_empty sub h [] = not_at_start sub [] h
not_in_empty sub h (d ∷ more) = λ p. cc p.1

shift :
    (sub replacement text : Text) (c : ℕ) (o : Option Text)
    → strip_prefix sub (c ∷ text) ≡ none
    → Replaced sub replacement text o
    → Replaced sub replacement (c ∷ text) (elim o [ none ↦ none | some t ↦ some (c ∷ t) ])
shift sub replacement text c none h r = nowhere sub text c h r
shift sub replacement text c (some t) h (front, rest, around, result, earliest) = (
  c ∷ front,
  rest,
  ap (λ x. c ∷ x) around,
  ap (λ x. c ∷ x) result,
  not_before sub text front c h earliest,
)

replace_first-Replaced :
    (sub replacement text : Text)
    → Replaced sub replacement text (replace_first sub replacement text)
unfolding replace_first
replace_first-Replaced sub replacement [] = elim (Option-cases (strip_prefix sub [])) [
  | inr (rest, found) ↦ rw (found, replace_first) (at_start sub replacement [] rest found)
  | inl missing ↦ rw (missing, replace_first) (not_in_empty sub missing)
]
replace_first-Replaced sub replacement (c ∷ text) =
    elim (Option-cases (strip_prefix sub (c ∷ text))) [
      | inr (rest, found) ↦
          rw (found, replace_first) (at_start sub replacement (c ∷ text) rest found)
      | inl missing ↦
          rw (missing, replace_first)
            (shift sub replacement text c (replace_first sub replacement text) missing
              (replace_first-Replaced sub replacement text))
    ]

-- What an edit with some change does to a text: the replacement at the first place of its anchor,
-- and nothing where the anchor is empty or does not occur.
abbrev pub Outcome : Text → Text → Text → Text × SubstitutionStatus → Type 0
Outcome anchor replacement base_text (t, applied) =
    (anchor ≢ []) × FirstReplaced anchor replacement base_text t
Outcome anchor replacement base_text (t, skipped_no_anchor) =
    (t ≡ base_text) × (anchor ≢ [] → (front : Text) → ¬ OccursAfter anchor base_text front)
Outcome anchor replacement base_text (t, not_accepted) = ⊥

-- The fall back never finds what the anchor did not.
bare-skipped :
    (base_text before after deleted inserted : Text)
    → (before ++ deleted ++ after ≢ []
        → (front : Text) → ¬ OccursAfter (before ++ deleted ++ after) base_text front)
    → substitute_bare base_text before after deleted inserted ≡ (base_text, skipped_no_anchor)
unfolding substitute_bare
bare-skipped base_text [] [] [] inserted h = refl
bare-skipped base_text [] [] (c ∷ deleted) inserted h =
    elim (Option-cases (replace_first (c ∷ deleted) inserted base_text)) [
      | inl missing ↦ rw missing
      | inr (t, found) ↦
          let (front, rest, around, _, _) =
            subst (Replaced (c ∷ deleted) inserted base_text) found
              (replace_first-Replaced (c ∷ deleted) inserted base_text) in
          absurd (
            h (λ e. cc e) front
              (rest, around ∙ ap (λ a. front ++ (a ++ rest)) (sym (append-nil (c ∷ deleted)))))
    ]
bare-skipped base_text [] (c ∷ after) deleted inserted h = refl
bare-skipped base_text (c ∷ before) after deleted inserted h = refl

empty_or : (t : Text) → is_empty_text t ≡ false → t ≢ []
empty_or [] h = cc
empty_or (c ∷ t) h = λ e. cc e

is_empty : (t : Text) → is_empty_text t ≡ true → t ≡ []
is_empty [] h = refl
is_empty (c ∷ t) h = cc

substitute-Outcome :
    (base_text before after deleted inserted : Text)
    → (is_empty_text deleted && is_empty_text inserted) ≡ false
    → Outcome
        (before ++ deleted ++ after)
        (before ++ inserted ++ after)
        base_text
        (substitute base_text before after deleted inserted)
unfolding substitute
substitute-Outcome base_text before after deleted inserted change =
    rw change (elim (Bool-cases (is_empty_text (before ++ deleted ++ after))) [
      | inl blank ↦
          let nothing = is_empty (before ++ deleted ++ after) blank in
          rw
            (
              blank,
              bare-skipped base_text before after deleted inserted
                  (λ some_text. absurd (some_text nothing)),
            )
            (refl, (λ some_text. absurd (some_text nothing)))
      | inr there ↦
          rw there
            (elim (Option-cases (
              replace_first (before ++ deleted ++ after) (before ++ inserted ++ after) base_text)) [
                | inr (t, found) ↦ rw found (
                  empty_or (before ++ deleted ++ after) there,
                  subst
                      (Replaced (before ++ deleted ++ after) (before ++ inserted ++ after)
                        base_text)
                      found
                      (replace_first-Replaced (before ++ deleted ++ after)
                        (before ++ inserted ++ after) base_text),
                )
                | inl missing ↦
                    let absent =
                      subst
                        (Replaced (before ++ deleted ++ after) (before ++ inserted ++ after)
                          base_text)
                        missing
                        (replace_first-Replaced (before ++ deleted ++ after)
                          (before ++ inserted ++ after) base_text) in
                    rw (missing, bare-skipped base_text before after deleted inserted (λ _. absent))
                      (refl, (λ _. absent))
              ])
    ])

-- An edit that deletes or inserts something is applied exactly where its anchor (the context before,
-- the deleted text, the context after) first stands: the rest of the text is kept, and there is no
-- earlier place. An edit whose anchor is empty or stands nowhere is skipped and leaves the text as
-- it was.
pub apply_anchor_substitution-Outcome :
    (base_text : Text) (edit : DocumentEdit)
    → (is_empty_text (or_empty edit.deleted_text) && is_empty_text (or_empty edit.inserted_text))
      ≡ false
    → Outcome
        (or_empty edit.context_before ++ or_empty edit.deleted_text ++ or_empty edit.context_after)
        (or_empty edit.context_before ++ or_empty edit.inserted_text ++ or_empty edit.context_after)
        base_text
        (apply_anchor_substitution base_text edit)
unfolding apply_anchor_substitution
apply_anchor_substitution-Outcome base_text edit change =
    substitute-Outcome base_text (or_empty edit.context_before) (or_empty edit.context_after)
      (or_empty edit.deleted_text) (or_empty edit.inserted_text) change
