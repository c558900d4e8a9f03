-- ===== src/Audit/Chain.antt =====
-- services/audit.rs: the rows of `audit_log` and the operations on the table, which is the list of
-- its rows in the order of rowid. Row ids and the time are arguments.
use deko.Prelude.{
  ℕ, suc, String, ◌<>◌, Bool, true, false, Option, none, some, List, [], ◌∷◌, ◌++◌, length,
  unwrap_or, keep, is_some, not, ◌==◌, string_eq, if◌then◌else◌,
}
use deko.Prelude.Text.{contains}
use deko.Platform.{Platform}

pub record AuditRow : Type 0 where
  pub id : String
  pub action_id : Option String
  pub event_type : String
  pub details : String
  pub created_at : String
  pub prev_hash : Option String
  pub entry_hash : Option String

abbrev pub genesis_hash : String
genesis_hash = "0000000000000000000000000000000000000000000000000000000000000000"

-- The text that is hashed, behind the hash of the row before.
unfoldable pub canonical : Option String → String → String → String → String
canonical action_id event_type details created_at =
    "|"
    <> (unwrap_or action_id ""
        <> ("|" <> (event_type <> ("|" <> (details <> ("|" <> created_at))))))

-- `SELECT entry_hash … WHERE entry_hash IS NOT NULL ORDER BY rowid DESC LIMIT 1`, from `head` on
unfoldable pub head_from : String → List AuditRow → String
head_from head [] = head
head_from head (r ∷ rows) = head_from (unwrap_or r.entry_hash head) rows

unfoldable pub current_head : List AuditRow → String
unfolding head_from
current_head rows = head_from genesis_hash rows

pub record ChainReport : Type 0 where
  pub valid : Bool
  pub entries_checked : ℕ
  pub chain_head : Option String
  pub first_broken_id : Option String

abbrev broken : AuditRow → ℕ → ChainReport
broken r checked = record {
  valid = false;
  entries_checked = checked;
  chain_head = none;
  first_broken_id = some r.id;
}

module _ (P : Platform) where
  open P use {sha256, rfc3339_to_sqlite}

  unfoldable pub compute_entry_hash : String → Option String → String → String → String → String
  compute_entry_hash prev_hash action_id event_type details created_at =
      sha256 (prev_hash <> canonical action_id event_type details created_at)

  unfoldable pub chained_row : String → String → Option String → String → String → String → AuditRow
  chained_row prev id action_id event_type details created_at = record {
    id = id;
    action_id = action_id;
    event_type = event_type;
    details = details;
    created_at = created_at;
    prev_hash = some prev;
    entry_hash = some (compute_entry_hash prev action_id event_type details created_at);
  }

  unfoldable pub insert_chained :
      String → String → Option String → String → String → List AuditRow → List AuditRow
  insert_chained id created_at action_id event_type details rows =
      rows ++ (chained_row (current_head rows) id action_id event_type details created_at ∷ [])

  -- The loop of `verify_chain`.
  unfoldable pub verify_from : String → ℕ → List AuditRow → ChainReport
  verify_from expected_prev checked [] = record {
    valid = true;
    entries_checked = checked;
    chain_head = some expected_prev;
    first_broken_id = none;
  }
  verify_from expected_prev checked (r ∷ rows) = elim r.prev_hash [
    | none ↦ broken r checked
    | some prev ↦ elim r.entry_hash [
      | none ↦ broken r checked
      | some entry ↦
          let rest = verify_from entry (suc checked) rows in
          if prev == expected_prev
          then if compute_entry_hash prev r.action_id r.event_type r.details r.created_at == entry
            then rest
            else broken r checked
          else broken r checked
    ]
  ]

  unfoldable pub verify_chain : List AuditRow → ChainReport
  unfolding verify_from
  verify_chain rows = verify_from genesis_hash 0 rows

  unfoldable pub normalize_legacy_timestamp : String → String
  unfolding contains
  normalize_legacy_timestamp ts =
      if contains ts "T" then unwrap_or (rfc3339_to_sqlite ts) ts else ts

  -- `UPDATE audit_log SET prev_hash = ?, entry_hash = ? WHERE id = ?`
  unfoldable pub set_hashes : String → String → String → List AuditRow → List AuditRow
  set_hashes id prev entry [] = []
  set_hashes id prev entry (r ∷ rows) =
      (if r.id == id then record r { prev_hash = some prev; entry_hash = some entry } else r)
      ∷ set_hashes id prev entry rows

  unfoldable pub backfill_row : AuditRow → List AuditRow → List AuditRow
  unfolding set_hashes
  backfill_row r rows =
      let prev = current_head rows in
      let ts = normalize_legacy_timestamp r.created_at in
      set_hashes r.id prev (compute_entry_hash prev r.action_id r.event_type r.details ts) rows

  -- The loop of `backfill_unchained` over the rows that the query returned.
  unfoldable pub backfill_loop : List AuditRow → List AuditRow → List AuditRow
  unfolding backfill_row
  backfill_loop [] rows = rows
  backfill_loop (r ∷ unchained) rows = backfill_loop unchained (backfill_row r rows)

  unfoldable pub unchained : List AuditRow → List AuditRow
  unchained rows = keep (λ r. not (is_some r.entry_hash)) rows

  -- How many rows were backfilled, and the table.
  unfoldable pub backfill_unchained : List AuditRow → ℕ × List AuditRow
  unfolding backfill_loop unchained
  backfill_unchained rows = (length (unchained rows), backfill_loop (unchained rows) rows)
