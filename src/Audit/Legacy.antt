-- ===== src/Audit/Legacy.antt =====
-- `backfill_unchained` on rows whose timestamp is not in the format that `verify_chain` hashes.
use text.Mathlib.TextLemmas.{append_cancel_left}
use deko.Prelude.{
  Option, ◌≡◌, ◌≢◌, sym, ◌⊎◌, inl, inr, String, some, List, ◌∷◌, All, arith, unwrap_or, string_eq,
}
use deko.Platform.{Platform}
use deko.Audit.Chain.{
  AuditRow, genesis_hash, canonical, compute_entry_hash, verify_chain, verify_from,
  normalize_legacy_timestamp, backfill_unchained,
}
use deko.Audit.Tamper.{Collision}
use deko.Audit.Backfill.{IsUnchained, DistinctIds, rechain, backfill_unchained_lem}

canonical-timestamp :
    (action_id : Option String) (event_type details t u : String)
    → canonical action_id event_type details t ≡ canonical action_id event_type details u
    → t ≡ u
unfolding canonical
canonical-timestamp action_id event_type details t u e = append_cancel_left "|" t u (
    append_cancel_left details _ _ (
      append_cancel_left "|" _ _ (
        append_cancel_left event_type _ _ (
          append_cancel_left "|" _ _
            (append_cancel_left (unwrap_or action_id "") _ _ (append_cancel_left "|" _ _ e))))))

rechain-breaks :
    (P : Platform) (r : AuditRow) (rows : List AuditRow)
    → normalize_legacy_timestamp P r.created_at ≢ r.created_at
    → ((verify_from P genesis_hash 0 (rechain P genesis_hash (r ∷ rows))).first_broken_id
        ≡ some r.id)
      ⊎ Collision P
unfolding verify_from rechain compute_entry_hash
rechain-breaks P r rows n =
    elim (string_eq.dec
      (compute_entry_hash P genesis_hash r.action_id r.event_type r.details r.created_at)
      (compute_entry_hash P genesis_hash r.action_id r.event_type r.details
        (normalize_legacy_timestamp P r.created_at))) [
          | yes same ↦ inr (
            _,
            _,
            (λ e. n (
                sym (
                  canonical-timestamp r.action_id r.event_type r.details _ _
                    (append_cancel_left genesis_hash _ _ e)))),
            same,
          )
          | no differ ↦ inl (ground arith)
        ]

-- The hash of a row is taken over the normalized timestamp, but the row keeps the old one: if the
-- first row's timestamp is not in the canonical format, the table that the backfill leaves is
-- reported broken at that row (or SHA-256 has a collision).
pub backfill_unchained-breaks :
    (P : Platform) (r : AuditRow) (rows : List AuditRow)
    → All IsUnchained (r ∷ rows)
    → DistinctIds (r ∷ rows)
    → normalize_legacy_timestamp P r.created_at ≢ r.created_at
    → ((verify_chain P (backfill_unchained P (r ∷ rows)).1).first_broken_id ≡ some r.id)
      ⊎ Collision P
unfolding verify_chain
backfill_unchained-breaks P r rows a d n =
    rw (backfill_unchained_lem P (r ∷ rows) a d) (rechain-breaks P r rows n)
