-- ===== src/System/History.antt =====
-- What the postings of a ledger leave.
use mathlib.Core.List.{append-nil, append_assoc}
use deko.Prelude.{◌≡◌, refl, sym, ap, ◌∙◌, true, List, [], ◌∷◌, ◌++◌}
use deko.Platform.{Platform}
use deko.Audit.Chain.{verify_chain}
use deko.VerdictService.Log.{
  Appends, Appends-refl, Appends-trans, Appends-chained_row, ChainFrom_of_Appends,
}
use deko.World.{World}
use deko.System.{Op, run}
use deko.System.Ledger.{
  Ledger, ledger_of, Posts, post_submission, post_verdict, post_entry, PostsAll, none_posted,
  then_post, run-PostsAll,
}

-- The second list is the first with others behind it.
abbrev pub IsPrefix : {A : Type 0} → List A → List A → Type 0
IsPrefix {A} xs ys = (rest : List A) × (ys ≡ xs ++ rest)

IsPrefix-refl : {A : Type 0} (xs : List A) → IsPrefix xs xs
IsPrefix-refl xs = ([], sym (append-nil xs))

IsPrefix-trans : {A : Type 0} (xs ys zs : List A) → IsPrefix xs ys → IsPrefix ys zs → IsPrefix xs zs
IsPrefix-trans xs ys zs (r, e) (s, f) = (r ++ s, f ∙ (ap (λ l. l ++ s) e ∙ append_assoc xs r s))

module _ (P : Platform) where
  record Preserves (l n : Ledger) : Type 0 where
    submissions : IsPrefix l.submissions n.submissions
    verdicts : IsPrefix l.verdicts n.verdicts
    entries : Appends P l.entries n.entries

  Preserves-refl : (l : Ledger) → Preserves l l
  Preserves-refl l = record {
    submissions = IsPrefix-refl l.submissions;
    verdicts = IsPrefix-refl l.verdicts;
    entries = Appends-refl P l.entries;
  }

  Preserves-Posts : {l n : Ledger} → Posts P l n → Preserves l n
  Preserves-Posts {l} (post_submission a) = record {
    submissions = (a ∷ [], refl);
    verdicts = IsPrefix-refl l.verdicts;
    entries = Appends-refl P l.entries;
  }
  Preserves-Posts {l} (post_verdict v) = record {
    submissions = IsPrefix-refl l.submissions;
    verdicts = (v ∷ [], refl);
    entries = Appends-refl P l.entries;
  }
  Preserves-Posts {l} (post_entry id action_id event_type details created_at) = record {
    submissions = IsPrefix-refl l.submissions;
    verdicts = IsPrefix-refl l.verdicts;
    entries = Appends-chained_row P l.entries id action_id event_type details created_at;
  }

  Preserves-PostsAll : {l n : Ledger} → PostsAll P l n → Preserves l n
  Preserves-PostsAll {l} none_posted = Preserves-refl l
  Preserves-PostsAll {l} {n} (then_post {m = m} h p) =
      let first = Preserves-PostsAll h in
      let second = Preserves-Posts p in
      record {
        submissions =
            IsPrefix-trans l.submissions m.submissions n.submissions first.submissions
              second.submissions;
        verdicts = IsPrefix-trans l.verdicts m.verdicts n.verdicts first.verdicts second.verdicts;
        entries = Appends-trans P l.entries m.entries n.entries first.entries second.entries;
      }

-- Whatever entry points run, in whatever order, and whatever statements fail: what was submitted
-- stays, but for its status and the time of its last change, and so do the verdicts and the entries
-- of the log, in their order and before what is new; and a log that verifies before verifies after.
pub run-ledger :
    (P : Platform) (ops : List (Op P.Number P.F64)) (w : World P.Number)
    → (verify_chain P w.tables.audit_log).valid ≡ true
    → let v = run P ops w in
      IsPrefix (ledger_of w).submissions (ledger_of v).submissions
      × IsPrefix w.tables.verdicts v.tables.verdicts
      × IsPrefix w.tables.audit_log v.tables.audit_log
      × ((verify_chain P v.tables.audit_log).valid ≡ true)
run-ledger P ops w valid =
    let k = Preserves-PostsAll P (run-PostsAll P ops w) in
    (
      k.submissions,
      k.verdicts,
      (k.entries.rows, k.entries.appended),
      ChainFrom_of_Appends P _ _ k.entries valid,
    )
