-- ===== src/AuditChain/Injective.antt =====
-- The canonical rendering loses nothing: equal texts come from equal fields.
use mathlib.Core.List.{append-nil, append_assoc}
use legalise.Base.{
  sym, ◌∙◌, ◌≡◌, refl, ap, ◌≢◌, List, [], ◌∷◌, ◌++◌, Option, none, some, length, arith, All,
}
use legalise.Base.Text.{Text, str, str-injective, IsDigit, All-str}
use legalise.AuditChain.Canonical.{field, join_lines, prefixed}

-- Digits up to a colon are determined, and so is the rest.
digits_colon :
    (ds es x y : Text)
    → All IsDigit ds
    → All IsDigit es
    → ds ++ 58 ∷ x ≡ es ++ 58 ∷ y
    → (ds ≡ es) × (x ≡ y)
digits_colon [] [] x y p q h = (refl, ground arith)
digits_colon [] (e ∷ es) x y p q h = ground arith
digits_colon (d ∷ ds) [] x y p q h = ground arith
digits_colon (d ∷ ds) (e ∷ es) x y p q h = ground (arith, digits_colon ds es x y p.1 q.1)

split_at_length : (v w r s : Text) → length v ≡ length w → v ++ r ≡ w ++ s → (v ≡ w) × (r ≡ s)
split_at_length [] [] r s l h = (refl, h)
split_at_length [] (b ∷ w) r s l h = absurd (omega arith)
split_at_length (a ∷ v) [] r s l h = absurd (omega arith)
split_at_length (a ∷ v) (b ∷ w) r s l h = ground (arith, split_at_length v w r s)

not_minus : (ds x t : Text) → All IsDigit ds → 45 ∷ t ≢ ds ++ 58 ∷ x
not_minus [] x t p h = ground arith
not_minus (d ∷ ds) x t p h = ground arith

field_split : (a b : Option Text) (r s : Text) → field a ++ r ≡ field b ++ s → (a ≡ b) × (r ≡ s)
unfolding field
field_split none none r s h = (refl, ground arith)
field_split none (some w) r s h =
    absurd (not_minus (str (length w)) (w ++ s) _ (All-str (length w)) (rw append_assoc at h))
field_split (some v) none r s h =
    absurd (not_minus (str (length v)) (v ++ r) _ (All-str (length v)) (sym (rw append_assoc at h)))
field_split (some v) (some w) r s h =
    let (same, rest) =
      digits_colon (str (length v)) (str (length w)) (v ++ r) (w ++ s) (All-str (length v))
        (All-str (length w))
        (sym (append_assoc (str (length v)) (58 ∷ v) r)
          ∙ h
          ∙ append_assoc (str (length w)) (58 ∷ w) s) in
    let (value, after) = split_at_length v w r s (str-injective _ _ same) rest in
    (ap some value, after)

-- What follows the prefix: a newline and a field, again and again.
after : List (Option Text) → Text
after [] = []
after (x ∷ xs) = 10 ∷ (field x ++ after xs)

after-injective : (xs ys : List (Option Text)) → after xs ≡ after ys → xs ≡ ys
unfolding after
after-injective [] [] h = refl
after-injective [] (y ∷ ys) h = cc
after-injective (x ∷ xs) [] h = cc
after-injective (x ∷ xs) (y ∷ ys) h =
    let (same, rest) = field_split x y (after xs) (after ys) (ground arith) in
    cc (same, after-injective xs ys rest)

prefixed-eq-after : (p : Text) (xs : List (Option Text)) → prefixed p xs ≡ p ++ after xs
unfolding prefixed join_lines after
prefixed-eq-after p [] = sym (append-nil p)
prefixed-eq-after p (x ∷ xs) = ap (λ t. p ++ (10 ∷ t)) (prefixed-eq-after (field x) xs)

append_cancel : (p r s : Text) → p ++ r ≡ p ++ s → r ≡ s
append_cancel [] r s h = h
append_cancel (c ∷ p) r s h = append_cancel p r s (ground arith)

-- Under one prefix, two field lists with the same text are the same, whatever the fields hold.
pub prefixed-injective :
    (p : Text) (xs ys : List (Option Text)) → prefixed p xs ≡ prefixed p ys → xs ≡ ys
prefixed-injective p xs ys h =
    after-injective xs ys
      (append_cancel p _ _ (sym (prefixed-eq-after p xs) ∙ h ∙ prefixed-eq-after p ys))
