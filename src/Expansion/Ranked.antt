-- ===== src/Expansion/Ranked.antt =====
-- The highest tier of a snapshot of Expansion.antt.
use legalise.Base.{
  ℕ, ◌≤◌, ◌≡◌, refl, sym, ap, subst, ◌∙◌, ◌⊎◌, inl, inr, List, [], ◌∷◌, none, some, ltb, arith, All,
  Bool-cases, Option-cases, eq_of_some_eq, some-none,
}
use legalise.AdviceBoundary.Tiers.{Tier, tier_rank, tier_rank_table}
use legalise.Expansion.{
  CapabilitySnapshot, Snapshot, candidates_of, candidates, max_tier, highest_tier, compare_tiers,
}
use legalise.Expansion.Declared.{Some}

-- The tiers from the least to the most.
abbrev pub height : Tier → ℕ
height Tier.factual_extraction = 1
height Tier.legal_information = 2
height Tier.draft_advice = 3
height Tier.supervised_legal_advice = 4
height Tier.approved_final_advice = 5
height (Tier.other n) = 0

tier_rank-height : (t : Tier) (n : ℕ) → tier_rank t ≡ some n → n ≡ height t
unfolding tier_rank tier_rank_table
tier_rank-height Tier.factual_extraction n h = sym (eq_of_some_eq h)
tier_rank-height Tier.legal_information n h = sym (eq_of_some_eq h)
tier_rank-height Tier.draft_advice n h = sym (eq_of_some_eq h)
tier_rank-height Tier.supervised_legal_advice n h = sym (eq_of_some_eq h)
tier_rank-height Tier.approved_final_advice n h = sym (eq_of_some_eq h)
tier_rank-height (Tier.other k) n h = cc

-- The tier is declared, at the top or by a capability.
abbrev pub Tiered : Snapshot → Tier → Type 0
Tiered s t = (s.advice_tier_max ≡ some t) ⊎ Some (λ c. c.advice_tier_max ≡ some t) s.capabilities

-- The first is none of the later ones, or one of them, and none of them is higher.
abbrev IsTop : Tier → List Tier → Tier → Type 0
IsTop best ts m =
    (height best ≤ height m)
    × All (λ t. height t ≤ height m) ts
    × ((m ≡ best) ⊎ Some (λ t. t ≡ m) ts)

max_tier-IsTop :
    (best : Tier) (held : ℕ) (ts : List Tier) (m : Tier)
    → tier_rank best ≡ some held
    → max_tier best held ts ≡ some m
    → IsTop best ts m
unfolding max_tier
max_tier-IsTop best held [] m r h =
    let same = eq_of_some_eq h in (ground (arith, ap height same), tt, inl (sym same))
max_tier-IsTop best held (t ∷ ts) m r h = elim (Option-cases (tier_rank t)) [
  | inl unknown ↦ absurd (some-none (sym (rw (unknown, max_tier) at h)))
  | inr (here, ranked) ↦
      let was = tier_rank-height best held r in
      let is = tier_rank-height t here ranked in
      elim (Bool-cases (ltb held here)) [
        | inl higher ↦
            let (above, others, from) =
              max_tier-IsTop t here ts m ranked (rw (ranked, higher, max_tier) at h) in
            (
              ground (arith, was, is, higher, above),
              (above, others),
              inr (elim from [ inl new ↦ inl (sym new) | inr later ↦ inr later ]),
            )
        | inr lower ↦
            let (above, others, from) =
              max_tier-IsTop best held ts m r (rw (ranked, lower, max_tier) at h) in
            (
              above,
              (ground (arith, was, is, lower, above), others),
              elim from [ inl new ↦ inl new | inr later ↦ inr (inr later) ],
            )
      ]
]

-- What the highest tier is among the declared ones.
abbrev IsHighest : List Tier → Tier → Type 0
IsHighest ts m =
    All (λ t. height t ≤ height m) ts × ((m ≡ Tier.factual_extraction) ⊎ Some (λ t. t ≡ m) ts)

candidates-IsHighest :
    (s : Snapshot) (ts : List Tier) (m : Tier)
    → candidates s ≡ ts
    → highest_tier s ≡ some m
    → IsHighest ts m
unfolding highest_tier
candidates-IsHighest s [] m c h = (tt, inl (sym (eq_of_some_eq (rw (c, highest_tier) at h))))
candidates-IsHighest s (t ∷ ts) m c h = elim (Option-cases (tier_rank t)) [
  | inl unknown ↦ absurd (some-none (sym (rw (c, unknown, highest_tier) at h)))
  | inr (here, ranked) ↦
      let (above, others, from) =
        max_tier-IsTop t here ts m ranked (rw (c, ranked, highest_tier) at h) in
      ((above, others), inr (elim from [ inl new ↦ inl (sym new) | inr later ↦ inr later ]))
]

candidates_of-declared :
    (P : Tier → Type 0) (cs : List CapabilitySnapshot) (t : Tier)
    → All P (candidates_of cs)
    → Some (λ c. c.advice_tier_max ≡ some t) cs
    → P t
candidates_of-declared P [] t h k = absurd k
candidates_of-declared P (c ∷ cs) t h (inl here) = (rw (here) at h).0
candidates_of-declared P (c ∷ cs) t h (inr more) = elim (Option-cases c.advice_tier_max) [
  | inl missing ↦ candidates_of-declared P cs t (rw (missing) at h) more
  | inr (u, there) ↦ candidates_of-declared P cs t (rw (there) at h).1 more
]

declared-candidates_of :
    (cs : List CapabilitySnapshot) (m : Tier)
    → Some (λ t. t ≡ m) (candidates_of cs)
    → Some (λ c. c.advice_tier_max ≡ some m) cs
declared-candidates_of [] m h = absurd h
declared-candidates_of (c ∷ cs) m h = elim (Option-cases c.advice_tier_max) [
  | inl missing ↦ inr (declared-candidates_of cs m (rw (missing) at h))
  | inr (u, there) ↦ elim (rw (there) at h) [
    | inl same ↦ inl (there ∙ ap some same)
    | inr more ↦ inr (declared-candidates_of cs m more)
  ]
]

candidates-Tiered :
    (P : Tier → Type 0) (s : Snapshot) (t : Tier) → All P (candidates s) → Tiered s t → P t
candidates-Tiered P s t h k = elim (Option-cases s.advice_tier_max) [
  | inl missing ↦ elim k [
    | inl top ↦ absurd (some-none (sym top ∙ missing))
    | inr more ↦ candidates_of-declared P s.capabilities t (rw (missing) at h) more
  ]
  | inr (u, there) ↦ elim k [
    | inl top ↦ subst P (eq_of_some_eq (sym there ∙ top)) (rw (there) at h).0
    | inr more ↦ candidates_of-declared P s.capabilities t (rw (there) at h).1 more
  ]
]

Tiered-candidates : (s : Snapshot) (m : Tier) → Some (λ t. t ≡ m) (candidates s) → Tiered s m
Tiered-candidates s m h = elim (Option-cases s.advice_tier_max) [
  | inl missing ↦ inr (declared-candidates_of s.capabilities m (rw (missing) at h))
  | inr (u, there) ↦ elim (rw (there) at h) [
    | inl same ↦ inl (there ∙ ap some same)
    | inr more ↦ inr (declared-candidates_of s.capabilities m more)
  ]
]

compare_tiers-height : (a b : Tier) → compare_tiers a b ≡ some none → height b ≤ height a
unfolding compare_tiers
compare_tiers-height a b h = elim (Option-cases (tier_rank b)) [
  | inl unknown ↦ absurd (some-none (sym (rw (unknown, compare_tiers) at h)))
  | inr (there, new) ↦ elim (Option-cases (tier_rank a)) [
    | inl unknown ↦ absurd (some-none (sym (rw (new, unknown, compare_tiers) at h)))
    | inr (here, old) ↦ elim (Bool-cases (ltb here there)) [
      | inl raised ↦ absurd (some-none (eq_of_some_eq (rw (new, old, raised, compare_tiers) at h)))
      | inr kept ↦ ground (arith, tier_rank-height b there new, tier_rank-height a here old, kept)
    ]
  ]
]

-- Where the comparison finds no higher tier, each declared tier is at most one that was declared
-- before, or at most the least.
pub compare_tiers-Tiered :
    (old new : Snapshot) (a b : Tier)
    → highest_tier old ≡ some a
    → highest_tier new ≡ some b
    → compare_tiers a b ≡ some none
    → (t : Tier) → Tiered new t
    → (u : Tier) × (Tiered old u ⊎ (u ≡ Tier.factual_extraction)) × (height t ≤ height u)
compare_tiers-Tiered old new a b was is kept t declared =
    let (_, from) = candidates-IsHighest old (candidates old) a refl was in
    let (others, _) = candidates-IsHighest new (candidates new) b refl is in
    let under : height t ≤ height b =
      candidates-Tiered (λ x. height x ≤ height b) new t others declared in
    (
      a,
      elim from [ inl least ↦ inr least | inr among ↦ inl (Tiered-candidates old a among) ],
      ground (arith, under, compare_tiers-height a b kept),
    )
