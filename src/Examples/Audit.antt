-- ===== src/Examples/Audit.antt =====
-- The audit chain on concrete tables.
use Prim.Native.String.{count}
use deko.Prelude.{
  ==_differ, ◌≡◌, ◌≢◌, ◌↔◌, ◌⊎◌, refl, true, none, some, List, [], ◌∷◌, map, string_eq, String,
}
use deko.Platform.{Platform}
use deko.Audit.Chain.{
  AuditRow, genesis_hash, current_head, compute_entry_hash, insert_chained, chained_row, canonical,
  verify_chain, backfill_unchained, normalize_legacy_timestamp,
}
use deko.Audit.Verify.{ChainFrom, accepted, verify_chain_iff, verify_chain-insert_chained}
use deko.Audit.Tamper.{content, Collision, verify_chain-tamper_evident}
use deko.Audit.Backfill.{verify_chain-backfill_unchained}
use deko.Audit.Legacy.{backfill_unchained-breaks}
use deko.Examples.{test_platform}

-- A hash of 64 characters.
abbrev constant_hash : Platform
constant_hash = record test_platform { sha256 = λ s. genesis_hash }

abbrev legacy : String → String → AuditRow
legacy id at = record {
  id = id;
  action_id = none;
  event_type = "action_created";
  details = "{}";
  created_at = at;
  prev_hash = none;
  entry_hash = none;
}

abbrev one_entry : List AuditRow
one_entry = insert_chained test_platform "e1" "2024-01-01 00:00:00" none "action_created" "{}" []

verify_chain_iff_example :
    (verify_chain test_platform one_entry ≡ accepted test_platform "h" 1)
    ↔ ChainFrom test_platform genesis_hash one_entry "h"
unfolding insert_chained
verify_chain_iff_example = verify_chain_iff test_platform one_entry "h"

verify_chain-insert_chained_example :
    verify_chain test_platform (
      insert_chained test_platform "e2" "2024-01-02 00:00:00"
        (some "a1")
        "verdict_issued"
        "{}"
        one_entry)
    ≡ accepted test_platform
        (compute_entry_hash test_platform
          (current_head one_entry)
          (some "a1")
          "verdict_issued"
          "{}"
          "2024-01-02 00:00:00")
        2
unfolding string_eq verify_chain insert_chained chained_row current_head compute_entry_hash
    canonical
verify_chain-insert_chained_example =
    verify_chain-insert_chained test_platform one_entry "e2" "2024-01-02 00:00:00" (some "a1")
      "verdict_issued" "{}" refl

abbrev hashed : List AuditRow
hashed = insert_chained constant_hash "e1" "2024-01-01 00:00:00" none "action_created" "{}" []

verify_chain-tamper_evident_example :
    (map content hashed ≡ map content hashed) ⊎ Collision constant_hash
unfolding string_eq verify_chain insert_chained chained_row current_head compute_entry_hash
    canonical
verify_chain-tamper_evident_example =
    verify_chain-tamper_evident constant_hash (λ s. refl) hashed hashed genesis_hash 1 refl refl

abbrev old_table : List AuditRow
old_table = legacy "e1" "2024-01-01 00:00:00" ∷ legacy "e2" "2024-01-02 00:00:00" ∷ []

ids_differ : ◌≢◌ {A = String} "e2" "e1"
unfolding string_eq
ids_differ = ==_differ "e2" "e1" refl

verify_chain-backfill_unchained_example :
    let (count, filled) = backfill_unchained test_platform old_table in
    (count ≡ 2)
    × ((verify_chain test_platform filled).valid ≡ true)
    × ((verify_chain test_platform filled).entries_checked ≡ 2)
unfolding normalize_legacy_timestamp
verify_chain-backfill_unchained_example =
    verify_chain-backfill_unchained test_platform old_table (refl, (refl, tt))
      ((ids_differ, tt), (tt, tt)) (refl, (refl, tt))

-- A platform that reads one timestamp of the older format.
abbrev reads_t : Platform
reads_t = record test_platform { rfc3339_to_sqlite = λ s. some "2024-01-01 00:00:00" }

formats_differ : ◌≢◌ {A = String} "2024-01-01 00:00:00" "2024-01-01T00:00:00Z"
unfolding string_eq
formats_differ = ==_differ "2024-01-01 00:00:00" "2024-01-01T00:00:00Z" refl

backfill_unchained-breaks_example :
    ((verify_chain reads_t
        (backfill_unchained reads_t (legacy "e1" "2024-01-01T00:00:00Z" ∷ [])).1).first_broken_id
      ≡ some "e1")
    ⊎ Collision reads_t
unfolding normalize_legacy_timestamp
backfill_unchained-breaks_example =
    backfill_unchained-breaks reads_t (legacy "e1" "2024-01-01T00:00:00Z") [] (refl, tt) (tt, tt)
      formats_differ
