-- ===== src/AuditChain/Tamper.antt =====
-- What a passing run of the offline verifier says about the entries of a pack.
use mathlib.Core.List.{reverse, reverse_aux, reverse-reverse}
use legalise.Base.{
  ℕ, suc, ◌≡◌, refl, sym, ap, ◌∙◌, ◌≢◌, ◌⊎◌, inl, inr, Bool, true, false, not, List, [], ◌∷◌, ◌++◌,
  map, Option, none, some, arith, Option-cases, eq_of_some_eq,
}
use legalise.Base.Text.{Text, Text-discrete, eq_of_text_eq}
use legalise.AuditChain.Canonical.{prefixed, entry_prefix, link_prefix}
use legalise.AuditChain.Injective.{prefixed-injective}
use legalise.AuditChain.Json.{Json, null, string, number, json_eq, opt_str, Dict, get}
use legalise.AuditChain.Verifier.{
  Problem, report_if, ChainDoc, AuditFile, verify, check_pack, entry_values, link_values,
  entry_hash, chain_link_hash, check_entry, check_entries,
}

pub eq_of_json_eq : (a b : Json) → json_eq a b ≡ true → a ≡ b
eq_of_json_eq null null h = refl
eq_of_json_eq (string s) (string t) h = ap string (eq_of_text_eq s t h)
eq_of_json_eq (number m) (number n) h = ground arith
eq_of_json_eq null (string t) h = cc
eq_of_json_eq null (number n) h = cc
eq_of_json_eq (string s) null h = cc
eq_of_json_eq (string s) (number n) h = cc
eq_of_json_eq (number m) null h = cc
eq_of_json_eq (number m) (string t) h = cc

-- Two texts with one hash.
abbrev pub Collision : (Text → Text) → Type 0
Collision sha256 = (s : Text) × (t : Text) × (s ≢ t) × (sha256 s ≡ sha256 t)

-- All that the two hashes of an entry are computed over, but for the entry hash itself.
abbrev pub covered : Dict → List (Option Text) × Option (List (Option Text))
covered entry = (entry_values entry, link_values entry [])

pub append-eq-nil {ℓ} : {A : Type ℓ} (xs ys : List A) → xs ++ ys ≡ [] → (xs ≡ []) × (ys ≡ [])
append-eq-nil [] ys h = (refl, h)
append-eq-nil (x ∷ xs) ys h = cc

passed : (b : Bool) (p : Problem) → report_if (not b) p ≡ [] → b ≡ true
passed true p h = refl
passed false p h = cc

link_values-eq :
    (a b : Dict) (g h : Text) (parts : List (Option Text))
    → link_values a g ≡ some parts
    → link_values b h ≡ some parts
    → (g ≡ h)
      × (link_values a [] ≡ link_values b [])
      × (opt_str (get "previous_chain_hash" a) ≡ opt_str (get "previous_chain_hash" b))
unfolding link_values
link_values-eq a b g h parts p q = ground arith

module _ (sha256 : Text → Text) where
  -- The entries of a chain, last first, that ends in the given hash.
  Chained : List Dict → Option Text → Type 0
  Chained [] hash = hash ≡ none
  Chained (e ∷ es) hash =
      (parts : List (Option Text)) × (link_values e (entry_hash sha256 e) ≡ some parts)
      × (hash ≡ some (sha256 (prefixed link_prefix parts)))
      × Chained es (opt_str (get "previous_chain_hash" e))

  check_entry-parts :
      (position : ℕ) (previous : Json) (e : Dict)
      → check_entry sha256 position previous e ≡ some []
      → (parts : List (Option Text)) × (link_values e (entry_hash sha256 e) ≡ some parts)
        × (get "chain_hash" e ≡ string (sha256 (prefixed link_prefix parts)))
        × (get "previous_chain_hash" e ≡ previous)
  unfolding check_entry chain_link_hash
  check_entry-parts position previous e h =
      elim (Option-cases (link_values e (entry_hash sha256 e))) [
        | inl missing ↦ absurd (ground arith)
        | inr (parts, found) ↦
            (parts, found, eq_of_json_eq _ _ (ground arith), eq_of_json_eq _ _ (ground arith))
      ]

  -- A clean round followed by clean rounds.
  check_entries-clean :
      (position : ℕ) (previous last : Json) (e : Dict) (es : List Dict)
      → check_entries sha256 position previous (e ∷ es) ≡ some ([], last)
      → (check_entry sha256 position previous e ≡ some [])
        × (check_entries sha256 (suc position) (get "chain_hash" e) es ≡ some ([], last))
  unfolding check_entries
  check_entries-clean position previous last e es h =
      elim (Option-cases (check_entry sha256 position previous e)) [
        | inl raised ↦ absurd (ground arith)
        | inr (found, p) ↦
            elim (Option-cases (check_entries sha256 (suc position) (get "chain_hash" e) es)) [
              | inl raised ↦ absurd (ground arith)
              | inr ((more, end), q) ↦
                  let joined : (found ++ more ≡ []) × (end ≡ last) = (ground arith, ground arith) in
                  let (none_here, none_after) = append-eq-nil found more joined.0 in
                  (p ∙ ap some none_here, q ∙ cc (none_after, joined.1))
            ]
      ]

  -- A clean run over the entries extends the chain that it started from.
  check_entries-Chained :
      (es done : List Dict) (position : ℕ) (previous last : Json)
      → check_entries sha256 position previous es ≡ some ([], last)
      → Chained done (opt_str previous)
      → Chained (reverse_aux es done) (opt_str last)
  unfolding check_entries Chained opt_str
  check_entries-Chained [] done position previous last h c = ground arith
  check_entries-Chained (e ∷ es) done position previous last h c =
      let (here, rest) = check_entries-clean position previous last e es h in
      let (parts, found, hash, link) = check_entry-parts position previous e here in
      check_entries-Chained es (e ∷ done) (suc position) (get "chain_hash" e) last rest
        (parts, found, ap opt_str hash, rw (ap opt_str link) c)

  same_text : (s t : Text) → sha256 s ≡ sha256 t → (s ≡ t) ⊎ Collision sha256
  same_text s t h = elim (Text-discrete s t) [ yes p ↦ inl p | no p ↦ inr (s, t, p, h) ]

  same_entry :
      (e d : Dict)
      → entry_hash sha256 e ≡ entry_hash sha256 d
      → (entry_values e ≡ entry_values d) ⊎ Collision sha256
  unfolding entry_hash
  same_entry e d h =
      elim (same_text (prefixed entry_prefix (entry_values e))
        (prefixed entry_prefix (entry_values d)) h) [
          | inl p ↦ inl (prefixed-injective entry_prefix _ _ p)
          | inr collision ↦ inr collision
        ]

  -- Chains that end in one hash hold the same, unless two texts collide.
  Chained-unique :
      (es ds : List Dict) (hash : Option Text)
      → Chained es hash
      → Chained ds hash
      → (map covered es ≡ map covered ds) ⊎ Collision sha256
  unfolding Chained
  Chained-unique [] [] hash p q = inl refl
  Chained-unique [] (d ∷ ds) hash p (parts, found, end, rest) = cc
  Chained-unique (e ∷ es) [] hash (parts, found, end, rest) q = cc
  Chained-unique (e ∷ es) (d ∷ ds) hash (pe, fe, he, ce) (pd, fd, hd, cd) =
      elim (same_text (prefixed link_prefix pe) (prefixed link_prefix pd) (cc (he, hd))) [
        | inr collision ↦ inr collision
        | inl link ↦
            let parts : pe ≡ pd = prefixed-injective link_prefix pe pd link in
            let (entry, others, previous) =
              link_values-eq e d (entry_hash sha256 e) (entry_hash sha256 d) pd (rw (← parts) fe)
                fd in
            elim (same_entry e d entry) [
              | inr collision ↦ inr collision
              | inl fields ↦
                  elim (Chained-unique es ds (opt_str (get "previous_chain_hash" d))
                    (rw (← previous) ce) cd) [
                      | inr collision ↦ inr collision
                      | inl before ↦ inl (cc (fields, others, before))
                    ]
            ]
      ]

-- The head hash that a pack states, if it states one.
abbrev pub head_hash : ChainDoc → Option Text
head_hash doc = elim doc.head [ none ↦ none | some head ↦ opt_str (get "chain_hash" head) ]

map-reverse_aux {ℓ κ} :
    {A : Type ℓ} {B : Type κ} (f : A → B) (xs done : List A)
    → map f (reverse_aux xs done) ≡ reverse_aux (map f xs) (map f done)
map-reverse_aux f [] done = refl
map-reverse_aux f (x ∷ xs) done = map-reverse_aux f xs (x ∷ done)

reverse-injective {ℓ} : {A : Type ℓ} (xs ys : List A) → reverse xs ≡ reverse ys → xs ≡ ys
reverse-injective xs ys h = sym (reverse-reverse xs) ∙ ap reverse h ∙ reverse-reverse ys

module _ (sha256 : Text → Text) where
  -- A clean pack with entries: the loop found nothing, and ended at the stated head.
  check_pack-clean_entries :
      (e : Dict) (es : List Dict) (head : Dict) (audit : AuditFile)
      → check_pack sha256 (e ∷ es) (some head) audit ≡ some []
      → (last : Json) × (check_entries sha256 1 null (e ∷ es) ≡ some ([], last))
        × (opt_str last ≡ opt_str (get "chain_hash" head))
  unfolding check_pack
  check_pack-clean_entries e es head audit h =
      elim (Option-cases (check_entries sha256 1 null (e ∷ es))) [
        | inl raised ↦ absurd (ground arith)
        | inr ((found, last), p) ↦
            let (none_found, none_after) =
              append-eq-nil found _ (eq_of_some_eq (rw (p, check_pack) at h)) in
            let ended = passed _ _ (append-eq-nil _ _ none_after).0 in
            (
              last,
              p ∙ ap (λ ps. some (ps, last)) none_found,
              ap opt_str (sym (eq_of_json_eq _ _ ended)),
            )
      ]

  check_pack-clean :
      (es : List Dict) (head : Option Dict) (audit : AuditFile)
      → check_pack sha256 es head audit ≡ some []
      → (last : Json) × (check_entries sha256 1 null es ≡ some ([], last))
        × (opt_str last ≡ elim head [ none ↦ none | some d ↦ opt_str (get "chain_hash" d) ])
  unfolding check_pack check_entries opt_str
  check_pack-clean [] none audit h = (null, refl, refl)
  check_pack-clean [] (some head) audit h = cc
  check_pack-clean (e ∷ es) none audit h = cc
  check_pack-clean (e ∷ es) (some head) audit h = check_pack-clean_entries e es head audit h

  verify-Chained :
      (doc : ChainDoc) (audit : AuditFile)
      → verify sha256 (some doc) audit ≡ some []
      → Chained sha256 (reverse doc.entries) (head_hash doc)
  unfolding verify Chained opt_str
  verify-Chained doc audit h =
      let (last, clean, end) = check_pack-clean doc.entries doc.head audit (ground arith) in
      rw (← end) (check_entries-Chained sha256 doc.entries [] 1 null last clean refl)

  -- Two packs that pass and state the same head hash agree on everything that is hashed, in every
  -- entry and in the same order, unless two different texts with one SHA-256 have been found.
  pub verify-tamper_evident :
      (a b : ChainDoc) (x y : AuditFile)
      → verify sha256 (some a) x ≡ some []
      → verify sha256 (some b) y ≡ some []
      → head_hash a ≡ head_hash b
      → (map covered a.entries ≡ map covered b.entries) ⊎ Collision sha256
  verify-tamper_evident a b x y p q h =
      elim (Chained-unique sha256 (reverse a.entries) (reverse b.entries) (head_hash b)
        (rw (← h) (verify-Chained a x p)) (verify-Chained b y q)) [
          | inr collision ↦ inr collision
          | inl same ↦ inl (
              reverse-injective _ _ (
                sym (map-reverse_aux covered a.entries [])
                ∙ same
                ∙ map-reverse_aux covered b.entries []))
        ]
