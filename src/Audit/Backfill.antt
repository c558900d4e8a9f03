-- ===== src/Audit/Backfill.antt =====
-- `backfill_unchained` on a table without hashes: the rows that it writes, when they verify, and
-- when they do not.
use mathlib.Core.Path.{◌≡⟨◌⟩◌, ◌∎}
use mathlib.Core.List.{append_assoc}
use deko.Prelude.{
  suc, ◌≡◌, ◌≢◌, refl, sym, ap, ◌∙◌, String, true, none, some, List, [], ◌∷◌, ◌++◌, length, All,
  All-append, arith, ==_refl, unwrap_or, string_eq,
}
use deko.Platform.{Platform}
use deko.Audit.Chain.{
  AuditRow, genesis_hash, head_from, current_head, compute_entry_hash, verify_chain,
  normalize_legacy_timestamp, set_hashes, backfill_row, backfill_loop, unchained,
  backfill_unchained,
}
use deko.Audit.Verify.{ChainFrom, done, link, verify_from_complete}

abbrev pub IsUnchained : AuditRow → Type 0
IsUnchained r = r.entry_hash ≡ none

abbrev pub IsFresh : String → List AuditRow → Type 0
IsFresh id rows = All (λ r. r.id ≢ id) rows

-- The primary key.
abbrev pub DistinctIds : List AuditRow → Type 0
DistinctIds [] = Unit
DistinctIds (r ∷ rows) = IsFresh r.id rows × DistinctIds rows

head_from-append :
    (h : String) (xs ys : List AuditRow) → head_from h (xs ++ ys) ≡ head_from (head_from h xs) ys
unfolding head_from
head_from-append h [] ys = refl
head_from-append h (x ∷ xs) ys = head_from-append (unwrap_or x.entry_hash h) xs ys

head_from-unchained :
    (h : String) (rows : List AuditRow) → All IsUnchained rows → head_from h rows ≡ h
unfolding head_from
head_from-unchained h [] a = refl
head_from-unchained h (r ∷ rows) (p, a) = rw p (head_from-unchained h rows a)

current_head-append :
    (xs ys : List AuditRow) → All IsUnchained ys → current_head (xs ++ ys) ≡ current_head xs
unfolding current_head
current_head-append xs ys a =
    head_from-append genesis_hash xs ys ∙ head_from-unchained (head_from genesis_hash xs) ys a

current_head-concat :
    (xs : List AuditRow) (r : AuditRow) {h : String}
    → r.entry_hash ≡ some h
    → current_head (xs ++ (r ∷ [])) ≡ h
unfolding current_head head_from
current_head-concat xs r e = head_from-append genesis_hash xs (r ∷ []) ∙ (rw e)

All-IsFresh-concat :
    (xs : List AuditRow) (r : AuditRow) (rows : List AuditRow)
    → All (λ x. IsFresh x.id xs) rows
    → IsFresh r.id rows
    → All (λ x. IsFresh x.id (xs ++ (r ∷ []))) rows
All-IsFresh-concat xs r [] f g = tt
All-IsFresh-concat xs r (x ∷ rows) (p, f) (q, g) = (
  All-append (λ y. y.id ≢ x.id) xs (r ∷ []) p (λ e. q (sym e), tt),
  All-IsFresh-concat xs r rows f g,
)

module _ (P : Platform) where
  abbrev pub filled : String → AuditRow → AuditRow
  filled prev r = record r {
    prev_hash = some prev;
    entry_hash = some (
        compute_entry_hash P prev r.action_id r.event_type r.details
          (normalize_legacy_timestamp P r.created_at));
  }

  -- The rows as the backfill leaves them, behind the hash `prev`.
  unfoldable pub rechain : String → List AuditRow → List AuditRow
  rechain prev [] = []
  rechain prev (r ∷ rows) = filled prev r ∷ rechain (unwrap_or (filled prev r).entry_hash "") rows

  set_hashes-fresh :
      (id prev entry : String) (rows : List AuditRow)
      → IsFresh id rows
      → set_hashes P id prev entry rows ≡ rows
  unfolding set_hashes
  set_hashes-fresh id prev entry [] h = refl
  set_hashes-fresh id prev entry (r ∷ rows) (p, h) =
      ground (arith, set_hashes-fresh id prev entry rows h)

  set_hashes-append :
      (id prev entry : String) (xs ys : List AuditRow)
      → set_hashes P id prev entry (xs ++ ys)
        ≡ set_hashes P id prev entry xs ++ set_hashes P id prev entry ys
  unfolding set_hashes
  set_hashes-append id prev entry [] ys = refl
  set_hashes-append id prev entry (x ∷ xs) ys = rw (set_hashes-append id prev entry xs ys)

  set_hashes_self :
      (prev entry : String) (r : AuditRow) (rows : List AuditRow)
      → IsFresh r.id rows
      → set_hashes P r.id prev entry (r ∷ rows)
        ≡ record r { prev_hash = some prev; entry_hash = some entry } ∷ rows
  unfolding set_hashes
  set_hashes_self prev entry r rows g = rw (==_refl r.id, set_hashes-fresh r.id prev entry rows g)

  backfill_row_lem :
      (xs : List AuditRow) (r : AuditRow) (rows : List AuditRow)
      → All IsUnchained (r ∷ rows)
      → IsFresh r.id xs
      → IsFresh r.id rows
      → backfill_row P r (xs ++ (r ∷ rows)) ≡ xs ++ (filled (current_head xs) r ∷ rows)
  unfolding backfill_row
  backfill_row_lem xs r rows a f g =
      rw (current_head-append xs (r ∷ rows) a, set_hashes-append, set_hashes-fresh r.id _ _ xs f)
        (ap (λ ys. xs ++ ys) (set_hashes_self (current_head xs) _ r rows g))

  backfill_loop_lem :
      (xs todo : List AuditRow)
      → All IsUnchained todo
      → DistinctIds todo
      → All (λ r. IsFresh r.id xs) todo
      → backfill_loop P todo (xs ++ todo) ≡ xs ++ rechain (current_head xs) todo
  unfolding backfill_loop rechain
  backfill_loop_lem xs [] a d f = refl
  backfill_loop_lem xs (r ∷ todo) a (g, d) (f, fs) =
      let r' = filled (current_head xs) r in
      backfill_loop P todo (backfill_row P r (xs ++ (r ∷ todo)))
      ≡⟨ ap (backfill_loop P todo) (backfill_row_lem xs r todo a f g) ⟩
        backfill_loop P todo (xs ++ (r' ∷ todo))
      ≡⟨ ap (backfill_loop P todo) (sym (append_assoc xs (r' ∷ []) todo)) ⟩
        backfill_loop P todo ((xs ++ (r' ∷ [])) ++ todo)
      ≡⟨ backfill_loop_lem (xs ++ (r' ∷ [])) todo a.1 d (All-IsFresh-concat xs r' todo fs g) ⟩
        (xs ++ (r' ∷ [])) ++ rechain (current_head (xs ++ (r' ∷ []))) todo
      ≡⟨ (rw (current_head-concat xs r' refl, append_assoc)) ⟩
        xs ++ (r' ∷ rechain (unwrap_or r'.entry_hash "") todo) ∎

  unchained-All : (rows : List AuditRow) → All IsUnchained rows → unchained P rows ≡ rows
  unfolding unchained
  unchained-All [] a = refl
  unchained-All (r ∷ rows) (p, a) = ground (arith, unchained-All rows a)

  IsFresh-nil : (rows : List AuditRow) → All (λ r. IsFresh r.id []) rows
  IsFresh-nil [] = tt
  IsFresh-nil (r ∷ rows) = (tt, IsFresh-nil rows)

  -- A legacy table: no hash is stored yet, and the ids are distinct.
  pub backfill_unchained_lem :
      (rows : List AuditRow)
      → All IsUnchained rows
      → DistinctIds rows
      → backfill_unchained P rows ≡ (length rows, rechain genesis_hash rows)
  unfolding backfill_unchained current_head
  backfill_unchained_lem rows a d =
      rw (unchained-All rows a)
        (ap (λ rs. (length rows, rs)) (backfill_loop_lem [] rows a d (IsFresh-nil rows)))

  abbrev pub IsNormal : AuditRow → Type 0
  IsNormal r = normalize_legacy_timestamp P r.created_at ≡ r.created_at

  rechain-ChainFrom :
      (prev : String) (rows : List AuditRow)
      → All IsNormal rows
      → (head : String) × ChainFrom P prev (rechain prev rows) head
  unfolding rechain
  rechain-ChainFrom prev [] a = (prev, done)
  rechain-ChainFrom prev (r ∷ rows) (p, a) =
      let entry = unwrap_or (filled prev r).entry_hash "" in
      let (head, c) = rechain-ChainFrom entry rows a in
      (
        head,
        link
            (record {
              prev_stored = refl;
              entry_stored = refl;
              entry_computed = ap (compute_entry_hash P prev r.action_id r.event_type r.details) p;
            })
            c,
      )

  length-rechain : (prev : String) (rows : List AuditRow) → length (rechain prev rows) ≡ length rows
  unfolding rechain
  length-rechain prev [] = refl
  length-rechain prev (r ∷ rows) =
      ap suc (length-rechain (unwrap_or (filled prev r).entry_hash "") rows)

-- On a table without hashes, with distinct ids and timestamps that are in the canonical format, the
-- backfill fills every row, and the table then verifies in full.
pub verify_chain-backfill_unchained :
    (P : Platform) (rows : List AuditRow)
    → All IsUnchained rows
    → DistinctIds rows
    → All (IsNormal P) rows
    → let (count, filled) = backfill_unchained P rows in
      (count ≡ length rows)
      × ((verify_chain P filled).valid ≡ true)
      × ((verify_chain P filled).entries_checked ≡ length rows)
unfolding verify_chain
verify_chain-backfill_unchained P rows a d n =
    let (head, c) = rechain-ChainFrom P genesis_hash rows n in
    let v = verify_from_complete P 0 c in
    rw (backfill_unchained_lem P rows a d) (
      refl,
      ap (λ r. r.valid) v,
      ap (λ r. r.entries_checked) v ∙ (omega (arith, length-rechain P genesis_hash rows)),
    )
