-- ===== src/AuditChain/Links.antt =====
-- What the links of a log that the trigger built say of its entries and of each other.
use legalise.Base.{
  ◌+◌, ◌≤◌, suc, ◌≡◌, refl, sym, ap, subst, ◌∙◌, ◌≢◌, inl, inr, List, [], ◌∷◌, ◌++◌, Option, none,
  some, All, length, arith, Bool-cases, Option-cases,
}
use legalise.Base.Text.{Text, codes}
use legalise.AuditChain.Canonical.{
  AuditEntry, from_row, entry_payload_text, chain_link_hash as link_hash, entry_hash as row_hash,
}
use legalise.AuditChain.Store.{
  AuditChainEntry, Store, scope_type, same_scope, latest, find_entry, sequence_of, hash_of,
  link_for_entry, insert_entry, scope_rows, order_by_sequence,
}
use legalise.AuditChain.Reread.{
  first, in_order-last, All-mono, All-snoc, newest, find-later, same_scope-eq, find-new,
}

module _ (sha256 : Text → Text) where
  -- What a link says of the entry it stands for, and of the link before it.
  unfoldable pub Linked : AuditEntry → Option AuditChainEntry → AuditChainEntry → Type 0
  Linked entry previous row =
      (row.audit_entry_id ≡ entry.id)
      × (row.matter_id ≡ entry.matter_id)
      × (row.chain_version ≡ 1)
      × (row.scope_sequence ≡ sequence_of previous + 1)
      × (row.previous_chain_hash ≡ hash_of previous)
      × (row.entry_hash ≡ row_hash sha256 (from_row entry (entry_payload_text entry)))
      × (row.chain_hash
          ≡ link_hash sha256 1 (scope_type row.matter_id) row.matter_id row.scope_sequence
              row.audit_entry_id row.previous_chain_hash row.entry_hash)

  -- The links of one scope, newest first, over the entries that hold them.
  unfoldable pub Chain : List AuditEntry → Option Text → List AuditChainEntry → Type 0
  Chain entries scope [] = Unit
  Chain entries scope (row ∷ older) =
      (entry : AuditEntry) × (find_entry row.audit_entry_id entries ≡ some entry)
      × (entry.matter_id ≡ scope)
      × Linked entry (first older) row
      × (sequence_of (first older) ≡ length older)
      × Chain entries scope older

  -- Sorting the links of a scope puts the newest last.
  abbrev pub Sorted : List AuditChainEntry → Type 0
  Sorted [] = Unit
  Sorted (row ∷ older) = order_by_sequence (row ∷ older) ≡ order_by_sequence older ++ row ∷ []

  pub order-Sorted :
      (entries : List AuditEntry) (scope : Option Text) (rows : List AuditChainEntry)
      → Chain entries scope rows
      → All (λ r. r.scope_sequence ≤ length rows) (order_by_sequence rows) × Sorted rows
  unfolding Chain Linked order_by_sequence
  order-Sorted entries scope [] c = (tt, tt)
  order-Sorted entries scope (row ∷ older) (entry, found, own, linked, counted, c) =
      let (bounded, _) = order-Sorted entries scope older c in
      let last =
        in_order-last row (length older) (order_by_sequence older) bounded
          (omega (arith, linked.3, counted)) in
      (
        rw last (
            All-snoc (suc (length older)) (order_by_sequence older) row
              (All-mono (length older) (suc (length older)) (order_by_sequence older) (omega arith)
                bounded)
              (omega (arith, linked.3, counted))),
        last,
      )

  Linked-sequence :
      (entry : AuditEntry) (previous : Option AuditChainEntry) (row : AuditChainEntry)
      → Linked entry previous row
      → row.scope_sequence ≡ sequence_of previous + 1
  unfolding Linked
  Linked-sequence entry previous row linked = linked.3

  pub chained_head :
      (entries : List AuditEntry) (scope : Option Text) (row : AuditChainEntry)
      (older : List AuditChainEntry)
      → Chain entries scope (row ∷ older)
      → (entry : AuditEntry) × (find_entry row.audit_entry_id entries ≡ some entry)
        × (entry.matter_id ≡ scope)
        × Linked entry (first older) row
        × (sequence_of (first older) ≡ length older)
        × Chain entries scope older
  unfolding Chain
  chained_head entries scope row older c = c

  -- The row that the trigger finds is the newest of the scope.
  latest-first :
      (entries : List AuditEntry) (scope : Option Text) (chain : List AuditChainEntry)
      → Chain entries scope (scope_rows scope chain)
      → latest scope chain ≡ first (scope_rows scope chain)
  unfolding latest
  latest-first entries scope [] c = refl
  latest-first entries scope (row ∷ chain) c = elim (Bool-cases (same_scope row.matter_id scope)) [
    | inr other ↦ rw other (latest-first entries scope chain (rw other at c))
    | inl same ↦
        let (entry, found, own, linked, counted, before) =
          chained_head entries scope row _ (rw same at c) in
        rw (same, latest-first entries scope chain before)
          (newest row (first (scope_rows scope chain)) (Linked-sequence entry _ row linked))
  ]

  Chain-later :
      (new : AuditEntry) (entries : List AuditEntry) (scope : Option Text)
      (rows : List AuditChainEntry)
      → find_entry new.id entries ≡ none
      → Chain entries scope rows
      → Chain (new ∷ entries) scope rows
  unfolding Chain
  Chain-later new entries scope [] absent c = tt
  Chain-later new entries scope (row ∷ rows) absent (entry, found, own, linked, counted, c) = (
    entry,
    find-later new entry row.audit_entry_id entries absent found,
    own,
    linked,
    counted,
    Chain-later new entries scope rows absent c,
  )

  Chain-counted :
      (entries : List AuditEntry) (scope : Option Text) (rows : List AuditChainEntry)
      → Chain entries scope rows
      → sequence_of (first rows) ≡ length rows
  unfolding Chain Linked
  Chain-counted entries scope [] c = refl
  Chain-counted entries scope (row ∷ rows) (entry, found, own, linked, counted, c) =
      omega (arith, linked.3, counted)

  -- The logs that inserts build. A `payload` is JSON, whose text is never empty.
  pub data Logged : Store → Type 0 where
    empty : Logged (record { audit_entries = []; audit_chain = [] })
    insert :
        {store later : Store} (entry : AuditEntry)
        → Logged store
        → entry.payload ≢ []
        → insert_entry sha256 entry store ≡ some later
        → Logged later

  unfoldable pub Whole : Store → Type 0
  Whole store =
      (scope : Option Text) → Chain store.audit_entries scope (scope_rows scope store.audit_chain)

  payload_text :
      (payload : Text) → payload ≢ [] → elim payload [ [] ↦ codes "{}" | c ∷ s ↦ c ∷ s ] ≡ payload
  payload_text [] filled = absurd (filled refl)
  payload_text (c ∷ s) filled = refl

  link-Linked :
      (entry : AuditEntry) (chain : List AuditChainEntry) (previous : Option AuditChainEntry)
      → entry.payload ≢ []
      → latest entry.matter_id chain ≡ previous
      → Linked entry previous (link_for_entry sha256 entry chain)
  unfolding Linked link_for_entry entry_payload_text
  link-Linked entry chain previous filled h = rw (← h) (
    refl,
    refl,
    refl,
    refl,
    refl,
    ap (λ p. row_hash sha256 (from_row entry p)) (sym (payload_text entry.payload filled)),
    refl,
  )

  insert-Chain :
      (entry : AuditEntry) (store : Store) (scope : Option Text)
      → Whole store
      → entry.payload ≢ []
      → find_entry entry.id store.audit_entries ≡ none
      → Chain
          (entry ∷ store.audit_entries)
          scope
          (scope_rows scope (link_for_entry sha256 entry store.audit_chain ∷ store.audit_chain))
  unfolding Whole link_for_entry Chain
  insert-Chain entry store scope whole filled absent =
      let rows = scope_rows scope store.audit_chain in
      let later = Chain-later entry store.audit_entries scope rows absent (whole scope) in
      elim (Bool-cases (same_scope entry.matter_id scope)) [
        | inr other ↦ rw other later
        | inl same ↦
            let own = same_scope-eq entry.matter_id scope same in
            rw same (
              entry,
              find-new entry store.audit_entries,
              own,
              link-Linked entry store.audit_chain (first rows) filled (
                  ap (λ s. latest s store.audit_chain) own
                  ∙ latest-first store.audit_entries scope store.audit_chain (whole scope)),
              Chain-counted store.audit_entries scope rows (whole scope),
              later,
            )
      ]

  abbrev Stored : Option Store → Type 0
  Stored none = Unit
  Stored (some store) = Whole store

  insert-Whole :
      (entry : AuditEntry) (store : Store)
      → Whole store
      → entry.payload ≢ []
      → Stored (insert_entry sha256 entry store)
  unfolding Whole insert_entry
  insert-Whole entry store whole filled =
      elim (Option-cases (find_entry entry.id store.audit_entries)) [
        | inl absent ↦ rw absent (λ scope. insert-Chain entry store scope whole filled absent)
        | inr (other, found) ↦ rw found tt
      ]

  pub Logged-Whole : {store : Store} → Logged store → Whole store
  unfolding Whole Chain
  Logged-Whole empty = λ scope. tt
  Logged-Whole (insert {store} entry before filled h) =
      subst Stored h (insert-Whole entry store (Logged-Whole before) filled)
