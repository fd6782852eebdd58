-- ===== src/AuditChain/RoundTrip.antt =====
-- A log that the trigger built exports to a pack that the offline verifier passes.
use legalise.Base.{
  ℕ, ◌+◌, suc, ◌≡◌, refl, sym, ap, subst, ◌∙◌, inl, inr, List, [], ◌∷◌, ◌++◌, Option, some, length,
  arith, Option-cases, eq_of_some_eq, ==_refl, length-append,
}
use legalise.Base.Text.{Text}
use legalise.AuditChain.Canonical.{
  AuditEntry, from_row, entry_payload_text, canonical, chain_link_canonical,
  chain_link_hash as link_hash, entry_hash as row_hash,
}
use legalise.AuditChain.Json.{Json, null, string, number, Dict, get}
use legalise.AuditChain.Verifier.{
  sequence_gap, previous_mismatch, entry_hash_mismatch, chain_hash_mismatch, AuditFile, verify,
  cross_check, check_pack, check_entry, check_entries, entry_hash, chain_link_hash,
}
use legalise.AuditChain.Tamper.{append-eq-nil}
use legalise.AuditChain.Store.{
  AuditChainEntry, Store, scope_type, find_entry, sequence_of, hash_of, scope_rows,
  order_by_sequence, json_of, chain_entry, chain_entries, last_of, chain_head, export_chain,
}
use legalise.AuditChain.Reread.{
  json_eq_refl, entry_values-chain_entry, read_sequence, read_previous, read_entry_hash,
  read_chain_hash, read_link, first, compared, clean, chain_entries-snoc, last_of-snoc,
}
use legalise.AuditChain.Links.{
  Linked, Chain, order-Sorted, chained_head, Whole, Logged, Logged-Whole,
}

module _ (sha256 : Text → Text) where
  read_entry :
      (chain : AuditChainEntry) (entry : AuditEntry)
      → entry_hash sha256 (chain_entry chain entry)
        ≡ row_hash sha256 (from_row entry (entry_payload_text entry))
  unfolding entry_hash row_hash canonical
  read_entry chain entry = rw (entry_values-chain_entry chain entry)

  read_chain_link :
      (chain : AuditChainEntry) (entry : AuditEntry) (hash : Text)
      → chain_link_hash sha256 (chain_entry chain entry) hash
        ≡ some (
            link_hash sha256 chain.chain_version
              (scope_type chain.matter_id)
              entry.matter_id
              chain.scope_sequence
              entry.id
              chain.previous_chain_hash
              hash)
  unfolding chain_link_hash link_hash chain_link_canonical
  read_chain_link chain entry hash = rw (read_link chain entry hash)

  pub check_entry-Linked :
      (entry : AuditEntry) (previous : Option AuditChainEntry) (row : AuditChainEntry)
      → Linked sha256 entry previous row
      → check_entry sha256
          (sequence_of previous + 1)
          (json_of (hash_of previous))
          (chain_entry row entry)
        ≡ some []
  unfolding Linked check_entry
  check_entry-Linked entry previous row (ids, matters, version, seq, prev, hash, link) =
      let d = chain_entry row entry in
      let read = read_chain_link row entry (entry_hash sha256 d) in
      rw
        (
          read,
          clean (get "scope_sequence" d) (number (sequence_of previous + 1))
              (sequence_gap (sequence_of previous + 1)) (read_sequence row entry ∙ ap number seq),
          clean (get "previous_chain_hash" d) (json_of (hash_of previous))
              (previous_mismatch (sequence_of previous + 1))
              (read_previous row entry ∙ ap json_of prev),
          clean (get "entry_hash" d) (string (entry_hash sha256 d))
              (entry_hash_mismatch (sequence_of previous + 1))
              (read_entry_hash row entry ∙ ap string (hash ∙ sym (read_entry row entry))),
        )
        (ap some (
          clean (get "chain_hash" d) _ (chain_hash_mismatch (sequence_of previous + 1)) (
            read_chain_hash row entry
            ∙ ap string (link ∙ cc (ids, matters, version, hash ∙ sym (read_entry row entry))))))

  check_entries-snoc :
      (position : ℕ) (previous last : Json) (ds : List Dict) (d : Dict)
      → check_entries sha256 position previous ds ≡ some ([], last)
      → check_entry sha256 (position + length ds) last d ≡ some []
      → check_entries sha256 position previous (ds ++ d ∷ []) ≡ some ([], get "chain_hash" d)
  unfolding check_entries
  check_entries-snoc position previous last [] d h k =
      let same : previous ≡ last = ap (λ p. p.1) (eq_of_some_eq h) in
      let here : position + 0 ≡ position = omega arith in
      let ends : check_entry sha256 position previous d ≡ some [] = rw (same, ← here) k in rw ends
  check_entries-snoc position previous last (e ∷ ds) d h k =
      elim (Option-cases (check_entry sha256 position previous e)) [
        | inl missing ↦ cc (rw (missing, check_entries) at h)
        | inr (found, p) ↦
            elim (Option-cases (check_entries sha256 (suc position) (get "chain_hash" e) ds)) [
              | inl missing ↦ absurd (ground arith)
              | inr ((more, l), q) ↦
                  let split = eq_of_some_eq (rw (p, q) at h) in
                  let parts = append-eq-nil found more (ap (λ r. r.0) split) in
                  let next =
                    check_entries-snoc (suc position) (get "chain_hash" e) last ds d
                      (q ∙ ap some (cc (parts.1, ap (λ r. r.1) split)))
                      (subst (λ n. check_entry sha256 n last d ≡ some []) (omega arith) k) in
                  rw (p, next, parts.0)
            ]
      ]

  -- The exported entries of a chain, oldest first, pass the loop of the verifier.
  exported : List AuditEntry → List AuditChainEntry → List Dict
  exported entries rows = chain_entries entries (order_by_sequence rows)

  exported-snoc :
      (entries : List AuditEntry) (scope : Option Text) (row : AuditChainEntry)
      (older : List AuditChainEntry) (entry : AuditEntry)
      → Chain sha256 entries scope (row ∷ older)
      → find_entry row.audit_entry_id entries ≡ some entry
      → exported entries (row ∷ older) ≡ exported entries older ++ chain_entry row entry ∷ []
  unfolding exported
  exported-snoc entries scope row older entry c found =
      rw (order-Sorted sha256 entries scope (row ∷ older) c).1
        (chain_entries-snoc entries (order_by_sequence older) row entry found)

  exported-length :
      (entries : List AuditEntry) (scope : Option Text) (rows : List AuditChainEntry)
      → Chain sha256 entries scope rows
      → length (exported entries rows) ≡ length rows
  unfolding Chain exported chain_entries order_by_sequence
  exported-length entries scope [] c = refl
  exported-length entries scope (row ∷ older) c =
      let (entry, found, own, linked, counted, before) = c in
      ap length (exported-snoc entries scope row older entry c found)
      ∙ length-append (exported entries older) (chain_entry row entry ∷ [])
      ∙ omega (arith, exported-length entries scope older before)

  check_entries-exported :
      (entries : List AuditEntry) (scope : Option Text) (rows : List AuditChainEntry)
      → Chain sha256 entries scope rows
      → check_entries sha256 1 null (exported entries rows)
        ≡ some ([], json_of (hash_of (first rows)))
  unfolding Chain check_entries exported chain_entries order_by_sequence
  check_entries-exported entries scope [] c = refl
  check_entries-exported entries scope (row ∷ older) c =
      let (entry, found, own, linked, counted, before) = c in
      let position : 1 + length (exported entries older) ≡ sequence_of (first older) + 1 =
        omega (arith, counted, exported-length entries scope older before) in
      ap (check_entries sha256 1 null) (exported-snoc entries scope row older entry c found)
      ∙ check_entries-snoc 1 null (json_of (hash_of (first older))) (exported entries older)
          (chain_entry row entry) (check_entries-exported entries scope older before)
          (subst
            (λ n.
              check_entry sha256 n (json_of (hash_of (first older))) (chain_entry row entry)
              ≡ some [])
            (sym position) (check_entry-Linked entry (first older) row linked))
      ∙ ap (λ h. some ([], h)) (read_chain_hash row entry)

  pub check_pack-passed :
      (e d : Dict) (es : List Dict) (audit : AuditFile)
      → check_entries sha256 1 null (e ∷ es) ≡ some ([], get "chain_hash" d)
      → last_of (e ∷ es) ≡ some d
      → check_pack sha256 (e ∷ es) (chain_head (e ∷ es)) audit ≡ some (cross_check (e ∷ es) audit)
  unfolding check_pack chain_head get
  check_pack-passed e d es audit h last = rw (
    last,
    chain_head,
    h,
    check_pack,
    json_eq_refl (get "chain_hash" d),
    ==_refl (suc (length es)),
  )

  pub check_pack-snoc :
      (ds : List Dict) (d : Dict) (audit : AuditFile)
      → check_entries sha256 1 null (ds ++ d ∷ []) ≡ some ([], get "chain_hash" d)
      → check_pack sha256 (ds ++ d ∷ []) (chain_head (ds ++ d ∷ [])) audit
        ≡ some (compared (ds ++ d ∷ []) audit)
  check_pack-snoc [] d audit h = check_pack-passed d d [] audit h refl
  check_pack-snoc (e ∷ ds) d audit h =
      check_pack-passed e d (ds ++ d ∷ []) audit h (last_of-snoc (e ∷ ds) d)

  check_pack-exported :
      (entries : List AuditEntry) (scope : Option Text) (rows : List AuditChainEntry)
      (audit : AuditFile)
      → Chain sha256 entries scope rows
      → check_pack sha256 (exported entries rows) (chain_head (exported entries rows)) audit
        ≡ some (compared (exported entries rows) audit)
  unfolding check_pack chain_head exported chain_entries order_by_sequence
  check_pack-exported entries scope [] audit c = refl
  check_pack-exported entries scope (row ∷ older) audit c =
      let (entry, found, own, linked, counted, before) =
        chained_head sha256 entries scope row older c in
      let longer = exported-snoc entries scope row older entry c found in
      subst (λ ds. check_pack sha256 ds (chain_head ds) audit ≡ some (compared ds audit))
        (sym longer)
        (check_pack-snoc (exported entries older) (chain_entry row entry) audit (
          ap (check_entries sha256 1 null) (sym longer)
          ∙ check_entries-exported entries scope (row ∷ older) c
          ∙ ap (λ h. some ([], h)) (sym (read_chain_hash row entry))))

  -- The log that any sequence of inserts builds exports, for every matter, to a pack in which the
  -- verifier finds no break: no gap, no hash that differs, no wrong head. All that can be reported is
  -- the comparison of the ids with audit.json.
  pub verify-export_chain :
      {store : Store} (matter_id : Text) (audit : AuditFile)
      → Logged sha256 store
      → verify sha256 (some (export_chain matter_id store)) audit
        ≡ some (compared (export_chain matter_id store).entries audit)
  unfolding verify export_chain exported Whole
  verify-export_chain {store} matter_id audit logged =
      check_pack-exported store.audit_entries (some matter_id)
        (scope_rows (some matter_id) store.audit_chain) audit
        (Logged-Whole sha256 logged (some matter_id))
