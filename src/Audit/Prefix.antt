-- ===== src/Audit/Prefix.antt =====
-- The loss of the newest entries.
use deko.Prelude.{
  ℕ, zero, suc, ◌≡◌, sym, ap, ◌∙◌, ◌≤◌, String, true, List, take, length, length-take, arith,
}
use deko.Platform.{Platform}
use deko.Audit.Chain.{AuditRow, genesis_hash, current_head, verify_chain}
use deko.Audit.Verify.{
  ChainFrom, done, link, accepted, ChainFrom-current_head, verify_from_complete, verify_from_sound,
}

module _ (P : Platform) where
  ChainFrom-take :
      (n : ℕ) {prev head : String} {rows : List AuditRow}
      → ChainFrom P prev rows head
      → (h : String) × ChainFrom P prev (take n rows) h
  ChainFrom-take zero {prev} c = (prev, done)
  ChainFrom-take (suc n) {prev} done = (prev, done)
  ChainFrom-take (suc n) (link f c) = let (h, d) = ChainFrom-take n c in (h, link f d)

-- A table that verifies still does after its newest entries are cut off, and the report then has
-- the head of the shorter table: only a head recorded elsewhere shows the loss.
pub verify_chain-take :
    (P : Platform) (n : ℕ) (rows : List AuditRow)
    → (verify_chain P rows).valid ≡ true
    → n ≤ length rows
    → verify_chain P (take n rows) ≡ accepted P (current_head (take n rows)) n
unfolding verify_chain
verify_chain-take P n rows v h =
    let (head, c) = verify_from_sound P genesis_hash 0 rows v in
    let (head', d) = ChainFrom-take P n c in
    verify_from_complete P 0 d
    ∙ (ap (accepted P head') (omega (arith, length-take {0} n rows))
        ∙ ap (λ h. accepted P h n) (sym (ChainFrom-current_head P d)))
