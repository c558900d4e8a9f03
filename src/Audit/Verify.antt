-- ===== src/Audit/Verify.antt =====
-- What `verify_chain` accepts.
use deko.Prelude.{
  ℕ, suc, ◌+◌, ◌≡◌, ◌↔◌, refl, sym, ap, ◌∙◌, String, true, Option, none, some, List, [], ◌∷◌, ◌++◌,
  length, length-append, arith, inl, inr, Option-cases, string_eq,
}
use mathlib.Core.Path.{subst}
use mathlib.Core.Option.{some-injective}
use deko.Platform.{Platform}
use deko.Audit.Chain.{
  AuditRow, genesis_hash, head_from, current_head, ChainReport, compute_entry_hash, chained_row,
  insert_chained, verify_from, verify_chain,
}

module _ (P : Platform) where
  -- A row that follows `prev`, with the hash `entry` of its own content.
  pub record Follows (prev entry : String) (r : AuditRow) : Type 0 where
    pub prev_stored : r.prev_hash ≡ some prev
    pub entry_stored : r.entry_hash ≡ some entry
    pub entry_computed :
        entry ≡ compute_entry_hash P prev r.action_id r.event_type r.details r.created_at

  -- A chain from one hash to another: each row follows the one before.
  pub data ChainFrom : String → List AuditRow → String → Type 0 where
    done : {h : String} → ChainFrom h [] h
    link :
        {prev entry head : String} {r : AuditRow} {rows : List AuditRow}
        → Follows prev entry r
        → ChainFrom entry rows head
        → ChainFrom prev (r ∷ rows) head

  abbrev pub accepted : String → ℕ → ChainReport
  accepted head n = record {
    valid = true;
    entries_checked = n;
    chain_head = some head;
    first_broken_id = none;
  }

  verify_from-Follows :
      (prev entry : String) (n : ℕ) (r : AuditRow) (rows : List AuditRow)
      → Follows prev entry r
      → verify_from P prev n (r ∷ rows) ≡ verify_from P entry (suc n) rows
  unfolding verify_from
  verify_from-Follows prev entry n r rows f = ground arith

  Follows-of_valid :
      (prev : String) (n : ℕ) (r : AuditRow) (rows : List AuditRow)
      → (verify_from P prev n (r ∷ rows)).valid ≡ true
      → (entry : String) × Follows prev entry r
  unfolding verify_from
  Follows-of_valid prev n r rows h = elim (Option-cases r.entry_hash) [
    | inl missing ↦ absurd (ground arith)
    | inr (entry, stored) ↦ (entry, ground arith)
  ]

  pub verify_from_complete :
      {prev head : String} {rows : List AuditRow} (n : ℕ)
      → ChainFrom prev rows head
      → verify_from P prev n rows ≡ accepted head (length rows + n)
  unfolding verify_from
  verify_from_complete n done = ap (accepted _) (omega arith)
  verify_from_complete {prev} n (link {entry} {head} {r} {rows} f c) =
      verify_from-Follows prev entry n r rows f
      ∙ (verify_from_complete (suc n) c ∙ ap (accepted head) (omega arith))

  pub verify_from_sound :
      (prev : String) (n : ℕ) (rows : List AuditRow)
      → (verify_from P prev n rows).valid ≡ true
      → (head : String) × ChainFrom prev rows head
  verify_from_sound prev n [] h = (prev, done)
  verify_from_sound prev n (r ∷ rows) h =
      let (entry, f) = Follows-of_valid prev n r rows h in
      let (head, c) =
        verify_from_sound entry (suc n) rows
          (rw (verify_from-Follows prev entry n r rows f) at h) in
      (head, link f c)

  pub ChainFrom-append :
      {prev middle head : String} {xs ys : List AuditRow}
      → ChainFrom prev xs middle
      → ChainFrom middle ys head
      → ChainFrom prev (xs ++ ys) head
  ChainFrom-append done d = d
  ChainFrom-append (link f c) d = link f (ChainFrom-append c d)

  pub ChainFrom-head :
      {prev head : String} {rows : List AuditRow}
      → ChainFrom prev rows head
      → head_from prev rows ≡ head
  unfolding head_from
  ChainFrom-head done = refl
  ChainFrom-head (link f c) = rw (f.entry_stored) (ChainFrom-head c)

  pub ChainFrom-current_head :
      {head : String} {rows : List AuditRow}
      → ChainFrom genesis_hash rows head
      → current_head rows ≡ head
  unfolding current_head
  ChainFrom-current_head c = ChainFrom-head c

  -- A row made by `insert_chained` follows the head of the table.
  pub chained_row-Follows :
      (prev id : String) (action_id : Option String) (event_type details created_at : String)
      → Follows prev
          (compute_entry_hash P prev action_id event_type details created_at)
          (chained_row P prev id action_id event_type details created_at)
  unfolding chained_row
  chained_row-Follows prev id action_id event_type details created_at = record {
    prev_stored = refl;
    entry_stored = refl;
    entry_computed = refl;
  }

-- `verify_chain` accepts a table exactly if its rows form a chain from the genesis hash, and then
-- reports the head of that chain and the number of its rows.
pub verify_chain_iff :
    (P : Platform) (rows : List AuditRow) (head : String)
    → (verify_chain P rows ≡ accepted P head (length rows)) ↔ ChainFrom P genesis_hash rows head
unfolding verify_chain
verify_chain_iff P rows head = (
  λ e.
      let (found, c) = verify_from_sound P genesis_hash 0 rows (ap (λ r. r.valid) e) in
      subst (ChainFrom P genesis_hash rows)
        (some-injective _ _ (ap (λ r. r.chain_head) (sym (verify_from_complete P 0 c) ∙ e))) c,
  λ c. verify_from_complete P 0 c ∙ ap (accepted P head) (omega arith),
)

-- Appending an entry to a table that verifies gives one that verifies, with one entry more and the
-- hash of the new entry as its head.
pub verify_chain-insert_chained :
    (P : Platform) (rows : List AuditRow) (id created_at : String) (action_id : Option String)
    (event_type details : String)
    → (verify_chain P rows).valid ≡ true
    → verify_chain P (insert_chained P id created_at action_id event_type details rows)
      ≡ accepted P
          (compute_entry_hash P (current_head rows) action_id event_type details created_at)
          (length rows + 1)
unfolding verify_chain insert_chained
verify_chain-insert_chained P rows id created_at action_id event_type details h =
    let (head, c) = verify_from_sound P genesis_hash 0 rows h in
    let f = chained_row-Follows P (current_head rows) id action_id event_type details created_at in
    let d = ChainFrom-append P c (rw (← ChainFrom-current_head P c) (link f done)) in
    verify_from_complete P 0 d
    ∙ ap (accepted P _) (
        omega (
          arith,
          length-append {0} rows
              (chained_row P (current_head rows) id action_id event_type details created_at ∷ []),
        ))
