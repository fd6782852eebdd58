-- ===== src/Matters/Swept.antt =====
-- Which matters the sweep of Matters/Sweep.antt archives.
use legalise.Base.{
  ℕ, zero, suc, ◌<◌, ◌≢◌, ◌||◌, not, Option-cases, true-false, ◌≤◌, ◌≡◌, refl, sym, ap, ◌∙◌, ◌⊎◌,
  inl, inr, Bool, true, false, ◌&&◌, List, [], ◌∷◌, Option, none, some, ◌==◌, ==_iff, ==_refl, ltb,
  leb, take, if_both, Bool-cases, arith, All, length, length-take, member, map,
}
use legalise.Matters.Lifecycle.{
  MatterStatus, opened, settlement, closed, archived, is_archived, Matter, Store, Outcome, archive,
  tombstone_matter, active_count,
}
use legalise.Matters.Sweep.{
  is_expired, insert_oldest, expired, select_expired, sweep_from, sweep, retention_purged, day_of,
}

-- Each matter of the first list stands at its place in the second, as it was or archived; only those
-- whose ids satisfy the test are archived.
abbrev pub Archives : (ℕ → Bool) → List Matter → List Matter → Type 0
Archives test [] [] = Unit
Archives test (m ∷ ms) (n ∷ ns) =
    ((n ≡ m) ⊎ ((n ≡ record m { status = archived }) × (test m.id ≡ true))) × Archives test ms ns
Archives test [] (n ∷ ns) = ⊥
Archives test (m ∷ ms) [] = ⊥

Archives-refl : (test : ℕ → Bool) (ms : List Matter) → Archives test ms ms
Archives-refl test [] = tt
Archives-refl test (m ∷ ms) = (inl refl, Archives-refl test ms)

abbrev archived_row : Matter → Matter
archived_row m = record m { status = archived }

one_trans :
    (test : ℕ → Bool) {a b c : Matter}
    → (b ≡ a) ⊎ ((b ≡ archived_row a) × (test a.id ≡ true))
    → (c ≡ b) ⊎ ((c ≡ archived_row b) × (test b.id ≡ true))
    → (c ≡ a) ⊎ ((c ≡ archived_row a) × (test a.id ≡ true))
one_trans test (inl p) (inl q) = inl (q ∙ p)
one_trans test (inl p) (inr (q, t)) = inr (q ∙ ap archived_row p, ap (λ x. test x.id) (sym p) ∙ t)
one_trans test (inr (p, t)) (inl q) = inr (q ∙ p, t)
one_trans test (inr (p, t)) (inr (q, _)) = inr (q ∙ ap archived_row p, t)

Archives-trans :
    (test : ℕ → Bool) (xs ys zs : List Matter)
    → Archives test xs ys
    → Archives test ys zs
    → Archives test xs zs
Archives-trans test [] [] [] h k = tt
Archives-trans test (a ∷ xs) (b ∷ ys) (c ∷ zs) h k =
    (one_trans test h.0 k.0, Archives-trans test xs ys zs h.1 k.1)
Archives-trans test [] [] (c ∷ zs) h k = absurd k
Archives-trans test [] (b ∷ ys) zs h k = absurd h
Archives-trans test (a ∷ xs) [] zs h k = absurd h
Archives-trans test (a ∷ xs) (b ∷ ys) [] h k = absurd k

archive-Archives :
    (test : ℕ → Bool) (id : ℕ) (ms : List Matter)
    → test id ≡ true
    → Archives test ms (archive id ms)
unfolding archive
archive-Archives test id [] t = tt
archive-Archives test id (m ∷ ms) t = elim (Bool-cases (m.id == id)) [
  | inl same ↦ rw (same) (inr (refl, ap test ((==_iff m.id id).0 same) ∙ t), Archives-refl test ms)
  | inr apart ↦ rw (apart) (inl refl, archive-Archives test id ms t)
]

abbrev ids : List Matter → List ℕ
ids = map (λ m. m.id)

module _ (delete_prefix : ℕ → ℕ → Bool) (test : ℕ → Bool) where
  abbrev After : List Matter → Outcome × Store → Type 0
  After ms result = Archives test ms result.1.matters

  tombstone_matter-Archives :
      (m : Matter) (s : Store)
      → test m.id ≡ true
      → Archives test s.matters
          (tombstone_matter delete_prefix m none retention_purged true s).1.matters
  unfolding tombstone_matter
  tombstone_matter-Archives m s t =
      if_both (After s.matters) (ltb 0 (active_count m.id s.jobs)) (Archives-refl test s.matters) (
        if_both (After s.matters) (delete_prefix m.created_by_id m.id)
          (archive-Archives test m.id s.matters t) (Archives-refl test s.matters))

  sweep_from-Archives :
      (ms : List Matter) (s : Store)
      → All (λ m. test m.id ≡ true) ms
      → Archives test s.matters (sweep_from delete_prefix ms s).1.matters
  unfolding sweep_from
  sweep_from-Archives [] s t = Archives-refl test s.matters
  sweep_from-Archives (m ∷ ms) s t =
      let s' = (tombstone_matter delete_prefix m none retention_purged true s).1 in
      Archives-trans test s.matters s'.matters (sweep_from delete_prefix ms s').1.matters
        (tombstone_matter-Archives m s t.0) (sweep_from-Archives ms s' t.1)

member_mono : (x y : ℕ) (xs : List ℕ) → member x xs ≡ true → member x (y ∷ xs) ≡ true
member_mono x y xs h = ground (arith, h)

All-member :
    (f : ℕ → Bool) (ms : List Matter)
    → ((x : ℕ) → member x (ids ms) ≡ true → f x ≡ true)
    → All (λ m. f m.id ≡ true) ms
All-member f [] h = tt
All-member f (m ∷ ms) h =
    (h m.id (rw (==_refl m.id)), All-member f ms (λ x k. h x (member_mono x m.id (ids ms) k)))

abbrev Expired : ℕ → List Matter → Type 0
Expired today = All (λ m. is_expired today m ≡ true)

insert_oldest-Expired :
    (today : ℕ) (m : Matter) (ms : List Matter)
    → is_expired today m ≡ true
    → Expired today ms
    → Expired today (insert_oldest m ms)
unfolding insert_oldest
insert_oldest-Expired today m [] e h = (e, tt)
insert_oldest-Expired today m (n ∷ ns) e h =
    if_both (Expired today) (leb (day_of m.retention_until) (day_of n.retention_until)) (e, h)
      (h.0, insert_oldest-Expired today m ns e h.1)

expired-Expired : (today : ℕ) (ms : List Matter) → Expired today (expired today ms)
unfolding expired
expired-Expired today [] = tt
expired-Expired today (m ∷ ms) = elim (Bool-cases (is_expired today m)) [
  | inl over ↦
      rw (over) (insert_oldest-Expired today m (expired today ms) over (expired-Expired today ms))
  | inr early ↦ rw (early) (expired-Expired today ms)
]

take-All : {A : Type 0} (P : A → Type 0) (n : ℕ) (xs : List A) → All P xs → All P (take n xs)
take-All P zero xs h = tt
take-All P (suc n) [] h = tt
take-All P (suc n) (x ∷ xs) h = (h.0, take-All P n xs h.1)

select_expired-Expired :
    (today : ℕ) (limit : Option ℕ) (ms : List Matter)
    → Expired today (select_expired today limit ms)
unfolding select_expired
select_expired-Expired today none ms = expired-Expired today ms
select_expired-Expired today (some n) ms =
    take-All (λ m. is_expired today m ≡ true) n (expired today ms) (expired-Expired today ms)

-- The matter is past its date, and its row is not archived.
abbrev pub Lapsed : ℕ → Matter → Type 0
Lapsed today m = (day : ℕ) × (m.retention_until ≡ some day) × (day < today) × (m.status ≢ archived)

is_expired-Lapsed : (today : ℕ) (m : Matter) → is_expired today m ≡ true → Lapsed today m
is_expired-Lapsed today m h = elim (Option-cases m.retention_until) [
  | inl never ↦ absurd (true-false (sym (rw (never) at h)))
  | inr (day, until) ↦
      let both : (ltb day today && not (is_archived m.status)) ≡ true = rw (until) at h in
      (
        day,
        until,
        ground (arith, both),
        (λ e.
            let buried : is_archived m.status ≡ true = ap is_archived e in
            true-false (sym (ground (arith, both, buried)))),
      )
]

is_archived-other : (status : MatterStatus) → status ≢ archived → is_archived status ≡ false
is_archived-other opened n = refl
is_archived-other settlement n = refl
is_archived-other closed n = refl
is_archived-other archived n = absurd (n refl)

is_expired_of : (today : ℕ) (m : Matter) → Lapsed today m → is_expired today m ≡ true
is_expired_of today m (day, until, past, live) =
    rw (until, is_archived-other m.status live) (ground (arith, past))

All-mono :
    {A : Type 0} (P Q : A → Type 0) (xs : List A) → ((x : A) → P x → Q x) → All P xs → All Q xs
All-mono P Q [] f h = tt
All-mono P Q (x ∷ xs) f h = (f x h.0, All-mono P Q xs f h.1)

member-insert_oldest :
    (x : ℕ) (m : Matter) (ns : List Matter)
    → member x (ids (insert_oldest m ns)) ≡ (x == m.id || member x (ids ns))
unfolding insert_oldest
member-insert_oldest x m [] = refl
member-insert_oldest x m (n ∷ ns) = ground (arith, member-insert_oldest x m ns)

member-expired_more :
    (today x : ℕ) (m : Matter) (ms : List Matter)
    → member x (ids (expired today ms)) ≡ true
    → member x (ids (expired today (m ∷ ms))) ≡ true
unfolding expired
member-expired_more today x m ms h = elim (Bool-cases (is_expired today m)) [
  | inl over ↦ rw (over, member-insert_oldest x m (expired today ms), h) (ground arith)
  | inr early ↦ rw (early) h
]

-- Every matter past its date is chosen.
abbrev pub Covers : ℕ → List Matter → List Matter → Type 0
Covers today chosen = All (λ m. Lapsed today m → member m.id (map (λ n. n.id) chosen) ≡ true)

expired-Covers : (today : ℕ) (ms : List Matter) → Covers today (expired today ms) ms
unfolding expired
expired-Covers today [] = tt
expired-Covers today (m ∷ ms) = (
  (λ lapsed.
      let over = is_expired_of today m lapsed in
      rw (over, member-insert_oldest m.id m (expired today ms), ==_refl m.id) refl),
  All-mono (λ n. Lapsed today n → member n.id (ids (expired today ms)) ≡ true)
      (λ n. Lapsed today n → member n.id (ids (expired today (m ∷ ms))) ≡ true) ms
      (λ n h lapsed. member-expired_more today n.id m ms (h lapsed)) (expired-Covers today ms),
)

-- How many are chosen: at most as many as the limit, or all that are past their date.
abbrev pub Chooses : ℕ → Option ℕ → List Matter → List Matter → Type 0
Chooses today none chosen ms = Covers today chosen ms
Chooses today (some limit) chosen ms = length chosen ≤ limit

select_expired-Chooses :
    (today : ℕ) (limit : Option ℕ) (ms : List Matter)
    → Chooses today limit (select_expired today limit ms) ms
unfolding select_expired
select_expired-Chooses today none ms = expired-Covers today ms
select_expired-Chooses today (some limit) ms = omega (arith, length-take limit (expired today ms))

sweep_if-Archives :
    (delete_prefix : ℕ → ℕ → Bool) (apply : Bool) (today : ℕ) (limit : Option ℕ) (s : Store)
    → Archives
        (λ x. apply && member x (ids (select_expired today limit s.matters)))
        s.matters
        (sweep delete_prefix apply today limit s).1.matters
unfolding sweep
sweep_if-Archives delete_prefix false today limit s = Archives-refl (λ x. false) s.matters
sweep_if-Archives delete_prefix true today limit s =
    let chosen = select_expired today limit s.matters in
    sweep_from-Archives delete_prefix (λ x. member x (ids chosen)) chosen s
      (All-member (λ x. member x (ids chosen)) chosen (λ x h. h))

-- A sweep archives only matters that it selects. Each of these has a date that lies before the day of
-- the sweep, and was not archived before. With a limit there are at most as many as that; without
-- one every such matter is selected. All other matters are as they were, and without `--apply` all
-- are.
pub sweep-Archives :
    (delete_prefix : ℕ → ℕ → Bool) (apply : Bool) (today : ℕ) (limit : Option ℕ) (s : Store)
    → let chosen = select_expired today limit s.matters in
      All (Lapsed today) chosen
      × Chooses today limit chosen s.matters
      × Archives
          (λ x. apply && member x (map (λ m. m.id) chosen))
          s.matters
          (sweep delete_prefix apply today limit s).1.matters
sweep-Archives delete_prefix apply today limit s = (
  All-mono (λ m. is_expired today m ≡ true) (Lapsed today) (select_expired today limit s.matters)
      (is_expired-Lapsed today) (select_expired-Expired today limit s.matters),
  select_expired-Chooses today limit s.matters,
  sweep_if-Archives delete_prefix apply today limit s,
)
