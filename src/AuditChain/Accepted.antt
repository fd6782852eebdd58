-- ===== src/AuditChain/Accepted.antt =====
-- The online check of AuditChain/Online.antt reports nothing of a log that the trigger built.
use legalise.Base.{
  ◌+◌, ◌≡◌, refl, sym, ap, subst, ◌∙◌, inl, inr, Bool, true, false, List, [], ◌∷◌, ◌++◌, Option,
  none, some, ==_iff, length, arith, Bool-cases, Option-cases, eq_of_some_eq, some-none,
}
use legalise.Base.Text.{Text, text_eq, text_eq_refl}
use legalise.AuditChain.Canonical.{AuditEntry, chain_link_hash}
use legalise.AuditChain.Store.{
  AuditChainEntry, Store, scope_type, same_scope, find_entry, sequence_of, hash_of, scope_rows,
  order_by_sequence, insert_entry, link_for_entry,
}
use legalise.AuditChain.Tamper.{append-eq-nil}
use legalise.AuditChain.Reread.{same_scope_refl, first}
use legalise.AuditChain.Links.{
  Linked, Chain, order-Sorted, chained_head, Whole, Logged, empty, insert, Logged-Whole,
}
use legalise.AuditChain.Online.{
  AuditChainIssue, count_entries, unless, is_no_issue, check_row, check_rows, verify_audit_chain,
}

nil_of_true : (b : Bool) (issue : AuditChainIssue) → b ≡ true → unless b issue ≡ []
nil_of_true true issue h = refl
nil_of_true false issue h = cc

nil_append : {xs ys : List AuditChainIssue} → xs ≡ [] → ys ≡ [] → xs ++ ys ≡ []
nil_append h k = rw (h, k)

same_text : {s t : Text} → s ≡ t → text_eq s t ≡ true
same_text {t = t} h = ap (λ x. text_eq x t) h ∙ text_eq_refl t

-- The row before a row that follows `rows`.
abbrev last_row : Option AuditChainEntry → List AuditChainEntry → Option AuditChainEntry
last_row previous [] = previous
last_row previous (row ∷ rows) = last_row (some row) rows

last_row-snoc :
    (previous : Option AuditChainEntry) (rows : List AuditChainEntry) (row : AuditChainEntry)
    → last_row previous (rows ++ row ∷ []) ≡ some row
last_row-snoc previous [] row = refl
last_row-snoc previous (r ∷ rows) row = last_row-snoc (some r) rows row

module _ (sha256 : Text → Text) where
  check_row-Linked :
      (entry : AuditEntry) (previous : Option AuditChainEntry) (row : AuditChainEntry)
      → Linked sha256 entry previous row
      → check_row sha256 previous row (some entry) ≡ []
  unfolding Linked check_row
  check_row-Linked entry previous row (ids, matters, version, seq, prev, hash, link) =
      nil_append (nil_of_true _ _ ((==_iff row.chain_version 1).1 version)) (
        nil_append (nil_of_true _ _ ((==_iff row.scope_sequence (sequence_of previous + 1)).1 seq))
          (nil_append
            (nil_of_true _ _
              (ap (λ x. same_scope x (hash_of previous)) prev ∙ same_scope_refl (hash_of previous)))
            (nil_append
              (nil_of_true _ _
                (ap (λ x. same_scope x entry.matter_id) matters ∙ same_scope_refl entry.matter_id))
              (nil_append (nil_of_true _ _ (same_text hash)) (
                nil_of_true _ _ (
                  same_text (
                    link
                    ∙ ap
                        (λ v.
                          chain_link_hash sha256 v (scope_type row.matter_id) row.matter_id
                            row.scope_sequence row.audit_entry_id row.previous_chain_hash
                            row.entry_hash)
                        (sym version))))))))

  check_rows-snoc :
      (entries : List AuditEntry) (previous : Option AuditChainEntry) (rows : List AuditChainEntry)
      (row : AuditChainEntry)
      → check_rows sha256 entries previous rows ≡ []
      → check_row sha256 (last_row previous rows) row (find_entry row.audit_entry_id entries) ≡ []
      → check_rows sha256 entries previous (rows ++ row ∷ []) ≡ []
  unfolding check_rows
  check_rows-snoc entries previous [] row h k = rw (k)
  check_rows-snoc entries previous (r ∷ rows) row h k =
      let (here, later) = append-eq-nil _ _ h in
      nil_append here (check_rows-snoc entries (some r) rows row later k)

  -- The row that comes before a link of the scope, in order, is the newest one before it.
  last_row-order :
      (entries : List AuditEntry) (scope : Option Text) (rows : List AuditChainEntry)
      → Chain sha256 entries scope rows
      → last_row none (order_by_sequence rows) ≡ first rows
  unfolding order_by_sequence
  last_row-order entries scope [] c = refl
  last_row-order entries scope (row ∷ older) c =
      ap (last_row none) (order-Sorted sha256 entries scope (row ∷ older) c).1
      ∙ last_row-snoc none (order_by_sequence older) row

  check_rows-Chain :
      (entries : List AuditEntry) (scope : Option Text) (rows : List AuditChainEntry)
      → Chain sha256 entries scope rows
      → check_rows sha256 entries none (order_by_sequence rows) ≡ []
  unfolding check_rows order_by_sequence
  check_rows-Chain entries scope [] c = refl
  check_rows-Chain entries scope (row ∷ older) c =
      let (entry, found, own, linked, counted, before) =
        chained_head sha256 entries scope row older c in
      ap (check_rows sha256 entries none) (order-Sorted sha256 entries scope (row ∷ older) c).1
      ∙ check_rows-snoc entries none (order_by_sequence older) row
          (check_rows-Chain entries scope older before)
          (ap (λ p. check_row sha256 p row (find_entry row.audit_entry_id entries))
              (last_row-order entries scope older before)
            ∙ ap (check_row sha256 (first older) row) found
            ∙ check_row-Linked entry (first older) row linked)

  abbrev Counted : Option Text → Store → Type 0
  Counted scope store =
      count_entries scope store.audit_entries ≡ length (scope_rows scope store.audit_chain)

  count_inserted :
      (scope : Option Text) (entry : AuditEntry) (store : Store)
      → Counted scope store
      → count_entries scope (entry ∷ store.audit_entries)
        ≡ length
            (scope_rows scope (link_for_entry sha256 entry store.audit_chain ∷ store.audit_chain))
  unfolding count_entries link_for_entry
  count_inserted scope entry store counted = elim (Bool-cases (same_scope entry.matter_id scope)) [
    | inl same ↦ rw (same) (omega (arith, counted))
    | inr other ↦ rw (other) (omega (arith, counted))
  ]

  insert_entry-Counted :
      (scope : Option Text) (entry : AuditEntry) (store : Store) {later : Store}
      → Counted scope store
      → insert_entry sha256 entry store ≡ some later
      → Counted scope later
  unfolding insert_entry count_entries link_for_entry
  insert_entry-Counted scope entry store counted h =
      elim (Option-cases (find_entry entry.id store.audit_entries)) [
        | inr (other, taken) ↦ absurd (some-none (sym (rw (taken) at h)))
        | inl absent ↦
            subst (Counted scope) (eq_of_some_eq (rw (absent) at h))
              (count_inserted scope entry store counted)
      ]

  Logged-Counted : (scope : Option Text) {store : Store} → Logged sha256 store → Counted scope store
  unfolding count_entries
  Logged-Counted scope empty = refl
  Logged-Counted scope (insert {store} entry before filled h) =
      insert_entry-Counted scope entry store (Logged-Counted scope before) h

  -- The online check of a matter reports no issue of a log that any sequence of inserts has built
  -- with the trigger.
  pub verify_audit_chain-Logged :
      {store : Store} (matter_id : Text)
      → Logged sha256 store
      → ((verify_audit_chain sha256 matter_id store).issues ≡ [])
        × ((verify_audit_chain sha256 matter_id store).is_ok ≡ true)
  unfolding verify_audit_chain Whole
  verify_audit_chain-Logged {store} matter_id logged =
      let none_found : (verify_audit_chain sha256 matter_id store).issues ≡ [] =
        nil_append (nil_of_true _ _ ((==_iff _ _).1 (Logged-Counted (some matter_id) logged))) (
          check_rows-Chain store.audit_entries (some matter_id)
            (scope_rows (some matter_id) store.audit_chain)
            (Logged-Whole sha256 logged (some matter_id))) in
      (none_found, ap is_no_issue none_found)
