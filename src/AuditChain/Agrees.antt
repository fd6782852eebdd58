-- ===== src/AuditChain/Agrees.antt =====
-- The online check of AuditChain/Online.antt passes every log that the trigger built, and what it
-- passes the offline verifier passes too.
use legalise.Base.{
  ℕ, suc, ◌+◌, ◌≡◌, refl, sym, ap, subst, ◌∙◌, inl, inr, Bool, true, false, List, [], ◌∷◌, ◌++◌,
  Option, none, some, ◌==◌, ==_iff, arith, Bool-cases, eq_of_some_eq,
}
use legalise.Base.Text.{Text, text_eq, eq_of_text_eq}
use legalise.AuditChain.Canonical.{AuditEntry, chain_link_hash}
use legalise.AuditChain.Json.{Json, Dict, get}
use legalise.AuditChain.Verifier.{AuditFile, verify, check_pack, check_entry, check_entries}
use legalise.AuditChain.Tamper.{append-eq-nil}
use legalise.AuditChain.Store.{
  AuditChainEntry, Store, scope_type, same_scope, find_entry, sequence_of, hash_of, scope_rows,
  order_by_sequence, json_of, last_of, chain_entry, chain_entries, chain_head, export_chain,
}
use legalise.AuditChain.Reread.{same_scope-eq, read_chain_hash, compared}
use legalise.AuditChain.Links.{Linked}
use legalise.AuditChain.RoundTrip.{check_entry-Linked, check_pack-passed}
use legalise.AuditChain.Online.{
  AuditChainIssue, unsupported_chain_version, sequence_gap, previous_hash_mismatch,
  missing_audit_entry, unless, check_row, check_rows, verify_audit_chain,
}

cons_nil : {A : Type 0} {x : A} {xs : List A} → ¬ (x ∷ xs ≡ [])
cons_nil h = cc

ends_nil :
    (xs ys zs : List AuditChainIssue) (issue : AuditChainIssue)
    → ¬ (xs ++ (ys ++ (zs ++ issue ∷ [])) ≡ [])
ends_nil [] [] [] issue h = cons_nil h
ends_nil (x ∷ xs) ys zs issue h = cons_nil h
ends_nil [] (y ∷ ys) zs issue h = cons_nil h
ends_nil [] [] (z ∷ zs) issue h = cons_nil h

true_of_unless : (b : Bool) (issue : AuditChainIssue) → unless b issue ≡ [] → b ≡ true
true_of_unless true issue h = refl
true_of_unless false issue h = cc

id_of_find_entry :
    (id : Text) (entries : List AuditEntry) {entry : AuditEntry}
    → find_entry id entries ≡ some entry
    → entry.id ≡ id
unfolding find_entry
id_of_find_entry id [] h = cc
id_of_find_entry id (e ∷ entries) {entry = entry} h = elim (Bool-cases (text_eq e.id id)) [
  | inl same ↦ ap (λ x. x.id) (sym (eq_of_some_eq (rw (same) at h))) ∙ eq_of_text_eq e.id id same
  | inr other ↦ id_of_find_entry id entries (rw (other) at h)
]

module _ (sha256 : Text → Text) where
  Linked-check_row :
      (previous : Option AuditChainEntry) (row : AuditChainEntry) (entry : AuditEntry)
      → row.audit_entry_id ≡ entry.id
      → check_row sha256 previous row (some entry) ≡ []
      → Linked sha256 entry previous row
  unfolding check_row Linked
  Linked-check_row previous row entry ids h =
      let (version, h1) = append-eq-nil _ _ h in
      let (seq, h2) = append-eq-nil _ _ h1 in
      let (prev, h3) = append-eq-nil _ _ h2 in
      let (scope, h4) = append-eq-nil _ _ h3 in
      let (hash, link) = append-eq-nil _ _ h4 in
      let one = (==_iff row.chain_version 1).0 (true_of_unless _ _ version) in
      (
        ids,
        same_scope-eq row.matter_id entry.matter_id (true_of_unless _ _ scope),
        one,
        (==_iff row.scope_sequence (sequence_of previous + 1)).0 (true_of_unless _ _ seq),
        same_scope-eq row.previous_chain_hash (hash_of previous) (true_of_unless _ _ prev),
        eq_of_text_eq _ _ (true_of_unless _ _ hash),
        eq_of_text_eq _ _ (true_of_unless _ _ link)
            ∙ ap
                (λ v.
                  chain_link_hash sha256 v (scope_type row.matter_id) row.matter_id
                    row.scope_sequence row.audit_entry_id row.previous_chain_hash row.entry_hash)
                one,
      )

  joined :
      (previous : Option AuditChainEntry) (row : AuditChainEntry) (o : Option AuditEntry)
      → check_row sha256 previous row o ≡ []
      → (entry : AuditEntry) × (o ≡ some entry)
  unfolding check_row
  joined previous row (some entry) h = (entry, refl)
  joined previous row none h = absurd (
      ends_nil (unless (row.chain_version == 1) (unsupported_chain_version row.audit_entry_id))
        (unless (row.scope_sequence == sequence_of previous + 1) (sequence_gap row.audit_entry_id))
        (unless (same_scope row.previous_chain_hash (hash_of previous))
          (previous_hash_mismatch row.audit_entry_id))
        (missing_audit_entry row.audit_entry_id) h)

  -- The row is joined with an entry, and its element of the export passes the offline loop.
  exported_row :
      (entries : List AuditEntry) (previous : Option AuditChainEntry) (row : AuditChainEntry)
      → check_row sha256 previous row (find_entry row.audit_entry_id entries) ≡ []
      → (entry : AuditEntry) × (find_entry row.audit_entry_id entries ≡ some entry)
        × (check_entry sha256
              (sequence_of previous + 1)
              (json_of (hash_of previous))
              (chain_entry row entry)
            ≡ some [])
        × (row.scope_sequence ≡ sequence_of previous + 1)
  unfolding Linked
  exported_row entries previous row h =
      let (entry, found) = joined previous row _ h in
      let linked =
        Linked-check_row previous row entry
          (sym (id_of_find_entry row.audit_entry_id entries found))
          (ap (check_row sha256 previous row) (sym found) ∙ h) in
      (entry, found, check_entry-Linked sha256 entry previous row linked, linked.3)

  chain_entries-found :
      (entries : List AuditEntry) (row : AuditChainEntry) (rows : List AuditChainEntry)
      (entry : AuditEntry)
      → find_entry row.audit_entry_id entries ≡ some entry
      → chain_entries entries (row ∷ rows) ≡ chain_entry row entry ∷ chain_entries entries rows
  unfolding chain_entries
  chain_entries-found entries row rows entry found = rw (found, chain_entries)

  check_entries-passed :
      (position : ℕ) (previous last : Json) (e : Dict) (es : List Dict)
      → check_entry sha256 position previous e ≡ some []
      → check_entries sha256 (suc position) (get "chain_hash" e) es ≡ some ([], last)
      → check_entries sha256 position previous (e ∷ es) ≡ some ([], last)
  unfolding check_entries
  check_entries-passed position previous last e es passes rest = rw (passes, rest)

  abbrev Passes : ℕ → Json → List Dict → Type 0
  Passes position previous ds =
      (d : Dict) × (e : Dict) × (es : List Dict) × (ds ≡ e ∷ es)
      × (last_of (e ∷ es) ≡ some d)
      × (check_entries sha256 position previous (e ∷ es) ≡ some ([], get "chain_hash" d))

  check_entries-check_rows :
      (entries : List AuditEntry) (previous : Option AuditChainEntry) (row : AuditChainEntry)
      (rows : List AuditChainEntry)
      → check_rows sha256 entries previous (row ∷ rows) ≡ []
      → Passes
          (sequence_of previous + 1)
          (json_of (hash_of previous))
          (chain_entries entries (row ∷ rows))
  unfolding check_rows chain_entries check_entries
  check_entries-check_rows entries previous row [] h =
      let (entry, found, passes, seq) = exported_row entries previous row (append-eq-nil _ _ h).0 in
      let e = chain_entry row entry in
      (
        e,
        e,
        [],
        chain_entries-found entries row [] entry found,
        refl,
        check_entries-passed _ _ _ e [] passes refl,
      )
  check_entries-check_rows entries previous row (next ∷ rows) h =
      let (here, later) = append-eq-nil _ _ h in
      let (entry, found, passes, seq) = exported_row entries previous row here in
      let (d, e, es, split, last, rest) =
        check_entries-check_rows entries (some row) next rows later in
      let f = chain_entry row entry in
      let position : row.scope_sequence + 1 ≡ suc (sequence_of previous + 1) = omega (arith, seq) in
      let rest' : check_entries sha256 (suc (sequence_of previous + 1)) (get "chain_hash" f)
            (e ∷ es)
          ≡ some ([], get "chain_hash" d) =
        subst
          (λ n.
            check_entries sha256 n (get "chain_hash" f) (e ∷ es) ≡ some ([], get "chain_hash" d))
          position
          (ap (λ j. check_entries sha256 (row.scope_sequence + 1) j (e ∷ es))
              (read_chain_hash row entry)
            ∙ rest) in
      (
        d,
        f,
        e ∷ es,
        chain_entries-found entries row (next ∷ rows) entry found ∙ ap (λ ds. f ∷ ds) split,
        last,
        check_entries-passed _ _ _ f (e ∷ es) passes rest',
      )

  verify-export_rows :
      (entries : List AuditEntry) (rows : List AuditChainEntry) (audit : AuditFile)
      → check_rows sha256 entries none rows ≡ []
      → check_pack sha256
          (chain_entries entries rows)
          (chain_head (chain_entries entries rows))
          audit
        ≡ some (compared (chain_entries entries rows) audit)
  unfolding check_pack chain_head chain_entries
  verify-export_rows entries [] audit h = refl
  verify-export_rows entries (row ∷ rows) audit h =
      let (d, e, es, split, last, passes) = check_entries-check_rows entries none row rows h in
      subst (λ ds. check_pack sha256 ds (chain_head ds) audit ≡ some (compared ds audit))
        (sym split) (check_pack-passed sha256 e d es audit passes last)

  -- A matter whose chain the online check reports no issue of exports, whatever else the database
  -- holds, to a pack in which the offline verifier finds no break: all that it can report is the
  -- comparison of the ids with audit.json.
  pub verify-verify_audit_chain :
      (store : Store) (matter_id : Text) (audit : AuditFile)
      → (verify_audit_chain sha256 matter_id store).issues ≡ []
      → verify sha256 (some (export_chain matter_id store)) audit
        ≡ some (compared (export_chain matter_id store).entries audit)
  unfolding verify export_chain verify_audit_chain
  verify-verify_audit_chain store matter_id audit h =
      verify-export_rows store.audit_entries
        (order_by_sequence (scope_rows (some matter_id) store.audit_chain)) audit
        (append-eq-nil _ _ h).1
