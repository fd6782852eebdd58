-- ===== src/Base/Text.antt =====
-- Texts as lists of code points, and the builtin `str` on integers.
use Prim.Native.Char.{code}
use Prim.Native.String.{String}
use Prim.Native.Nat.{ℕ, zero, suc, ◌+◌, ◌-◌, ◌*◌, ◌/◌, ◌%◌, ◌≤◌, ◌<◌}
use mathlib.Core.Path.{◌≡◌, refl, ap, sym, ◌∙◌}
use mathlib.Core.Bool.{Bool, true, false, ◌&&◌}
use mathlib.Core.List.{List, [], ◌∷◌, ◌++◌}
use native.Mathlib.Omega.{arith}
use native.Mathlib.Decide.{ℕ_discrete}
use legalise.Base.Tests.{ltb, ◌==◌, if◌then◌else◌}
use legalise.Base.Lists.{All}

abbrev pub Text : Type 0
Text = List ℕ

abbrev pub codes : String → Text
codes String.[] = []
codes (String.◌∷◌ c s) = code c ∷ codes s

pub Text-discrete : Discrete Text
Text-discrete = hlevel ℕ_discrete

abbrev pub text_eq : Text → Text → Bool
text_eq [] [] = true
text_eq (a ∷ s) (b ∷ t) = a == b && text_eq s t
text_eq _ _ = false

pub eq_of_text_eq : (s t : Text) → text_eq s t ≡ true → s ≡ t
eq_of_text_eq [] [] h = refl
eq_of_text_eq [] (b ∷ t) h = cc
eq_of_text_eq (a ∷ s) [] h = cc
eq_of_text_eq (a ∷ s) (b ∷ t) h = ground (arith, eq_of_text_eq s t)

pub text_eq_refl : (s : Text) → text_eq s s ≡ true
text_eq_refl [] = refl
text_eq_refl (a ∷ s) = ground (arith, text_eq_refl s)

-- The decimal digits of a number. `n + 1` rounds are enough, since each round divides by ten.
unfoldable pub digits : ℕ → ℕ → Text
digits zero n = []
digits (suc f) n =
    let rest = digits f (n / 10) in if ltb n 10 then (48 + n) ∷ [] else rest ++ (48 + n % 10) ∷ []

-- `str(n)` of an integer that is not negative.
unfoldable pub str : ℕ → Text
unfolding digits
str n = digits (n + 1) n

read : ℕ → Text → ℕ
read acc [] = acc
read acc (c ∷ s) = read (acc * 10 + (c - 48)) s

read-append : (acc : ℕ) (s t : Text) → read acc (s ++ t) ≡ read (read acc s) t
unfolding read
read-append acc [] t = refl
read-append acc (c ∷ s) t = read-append (acc * 10 + (c - 48)) s t

read-digits : (f n : ℕ) → n < f → read 0 (digits f n) ≡ n
unfolding read digits
read-digits zero n h = absurd (omega arith)
read-digits (suc f) n h =
    ground (arith, read-digits f (n / 10), read-append 0 (digits f (n / 10)) ((48 + n % 10) ∷ []))

pub str-injective : (m n : ℕ) → str m ≡ str n → m ≡ n
unfolding str
str-injective m n h =
    sym (read-digits (m + 1) m (omega arith)) ∙ ap (read 0) h ∙ read-digits (n + 1) n (omega arith)

-- A digit, which is neither a colon nor a minus sign.
abbrev pub IsDigit : ℕ → Type 0
IsDigit c = (48 ≤ c) × (c < 58)

All-append {ℓ κ} :
    {A : Type ℓ} (P : A → Type κ) (xs ys : List A) → All P xs → All P ys → All P (xs ++ ys)
All-append P [] ys p q = q
All-append P (x ∷ xs) ys p q = (p.0, All-append P xs ys p.1 q)

All-digits : (f n : ℕ) → All IsDigit (digits f n)
unfolding digits
All-digits zero n = tt
All-digits (suc f) n = ground (
  arith,
  All-append IsDigit (digits f (n / 10)) ((48 + n % 10) ∷ []) (All-digits f (n / 10))
      ((omega arith, omega arith), tt),
)

pub All-str : (n : ℕ) → All IsDigit (str n)
unfolding str
All-str n = All-digits (n + 1) n

str_runs : str 1_204 ≡ codes "1204"
unfolding str
str_runs = refl

-- An integer; `negsuc n` is -(n + 1).
pub data ℤ : Type 0 where
  pos : ℕ → ℤ
  negsuc : ℕ → ℤ
