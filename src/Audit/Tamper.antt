-- ===== src/Audit/Tamper.antt =====
-- When two tables have one head.
use Prim.Native.String.{count}
use mathlib.Core.Path.{ap₂, subst}
use mathlib.Core.Option.{some-injective}
use text.Mathlib.TextLemmas.{append_inj}
use deko.Prelude.{
  ℕ, ◌≡◌, ◌≢◌, refl, sym, ap, ◌∙◌, ◌⊎◌, inl, inr, String, ◌<>◌, List, ◌∷◌, map, length, arith,
  string_eq,
}
use deko.Platform.{Platform}
use deko.Audit.Chain.{AuditRow, genesis_hash, canonical, compute_entry_hash, verify_chain}
use deko.Audit.Verify.{
  Follows, ChainFrom, done, link, accepted, verify_from_complete, verify_from_sound,
}

-- The text of an entry that the hash covers.
abbrev pub content : AuditRow → String
content r = canonical r.action_id r.event_type r.details r.created_at

module _ (P : Platform) where
  open P use {sha256}

  abbrev pub Collision : Type 0
  Collision = (s : String) × (t : String) × (s ≢ t) × (sha256 s ≡ sha256 t)

  -- One hash of two entries behind two hashes of one length: the same text, or a collision.
  same_entry :
      (prev prev' c c' : String)
      → count prev ≡ count prev'
      → sha256 (prev <> c) ≡ sha256 (prev' <> c')
      → ((prev ≡ prev') × (c ≡ c')) ⊎ Collision
  same_entry prev prev' c c' n e = elim (string_eq.dec (prev <> c) (prev' <> c')) [
    | yes same ↦ inl (append_inj same n)
    | no differ ↦ inr (prev <> c, prev' <> c', differ, e)
  ]

  chain_of_accepted :
      (rows : List AuditRow) (head : String) (n : ℕ)
      → verify_chain P rows ≡ accepted P head n
      → ChainFrom P genesis_hash rows head × (length rows ≡ n)
  unfolding verify_chain
  chain_of_accepted rows head n e =
      let (found, c) = verify_from_sound P genesis_hash 0 rows (ap (λ r. r.valid) e) in
      let same = sym (verify_from_complete P 0 c) ∙ e in
      (
        subst (ChainFrom P genesis_hash rows) (some-injective _ _ (ap (λ r. r.chain_head) same)) c,
        omega (arith, ap (λ r. r.entries_checked) same),
      )

  module _ (sha256_count : (s : String) → count (sha256 s) ≡ 64) where
    same_link :
        {prev prev' entry entry' : String} {r r' : AuditRow}
        → count prev ≡ 64
        → count prev' ≡ 64
        → Follows P prev entry r
        → Follows P prev' entry' r'
        → entry ≡ entry'
        → ((prev ≡ prev') × (content r ≡ content r')) ⊎ Collision
    unfolding compute_entry_hash
    same_link n n' f f' e =
        same_entry _ _ _ _ (n ∙ sym n') (sym f.entry_computed ∙ (e ∙ f'.entry_computed))

    count_entry : {prev entry : String} {r : AuditRow} → Follows P prev entry r → count entry ≡ 64
    unfolding compute_entry_hash
    count_entry f = ap count f.entry_computed ∙ sha256_count _

    same_chain :
        {prev prev' head : String} {rows rows' : List AuditRow}
        → ChainFrom P prev rows head
        → ChainFrom P prev' rows' head
        → count prev ≡ 64
        → count prev' ≡ 64
        → length rows ≡ length rows'
        → ((prev ≡ prev') × (map content rows ≡ map content rows')) ⊎ Collision
    same_chain done done n n' l = inl (refl, refl)
    same_chain done (link f' c') n n' l = absurd (omega arith)
    same_chain (link f c) done n n' l = absurd (omega arith)
    same_chain (link f c) (link f' c') n n' l =
        elim (same_chain c c' (count_entry f) (count_entry f') (omega arith)) [
          | inr collision ↦ inr collision
          | inl (entry, rest) ↦ elim (same_link n n' f f' entry) [
            | inr collision ↦ inr collision
            | inl (same, here) ↦ inl (same, ap₂ ◌∷◌ here rest)
          ]
        ]

-- Two tables that verify with the same head and the same number of entries hold the same entries,
-- in the same order, up to what the hashed text shows of them; or two different texts with one
-- SHA-256 are at hand.
pub verify_chain-tamper_evident :
    (P : Platform)
    → ((s : String) → count (P.sha256 s) ≡ 64)
    → (rows rows' : List AuditRow) (head : String) (n : ℕ) → verify_chain P rows ≡ accepted P head n
    → verify_chain P rows' ≡ accepted P head n
    → (map content rows ≡ map content rows') ⊎ Collision P
unfolding verify_chain
verify_chain-tamper_evident P sha256_count rows rows' head n v v' =
    let (c, l) = chain_of_accepted P rows head n v in
    let (c', l') = chain_of_accepted P rows' head n v' in
    elim (same_chain P sha256_count c c' refl refl (l ∙ sym l')) [
      | inl (_, same) ↦ inl same
      | inr collision ↦ inr collision
    ]
