-- ===== src/Webhook/Signature.antt =====
-- Which headers `verify` accepts.
use Prim.Native.Char.{code}
use Prim.Native.String.count
use Prim.Native.String.{count, [] as nil_text, ◌∷◌ as cons_text}
use text.Mathlib.TextEquality.{Char-path}
use deko.Prelude.{
  ◌≡◌, ◌↔◌, refl, String, true, false, some, arith, nat_eq, Option-cases, inl, inr, string_eq,
}
use mathlib.Core.Path.{ap₂}
use deko.Prelude.Int.{ℤ}
use deko.Prelude.Text.{trim}
use deko.Platform.{Platform}
use deko.Webhook.{WebhookService, sign, verify, fold_equal}

fold_equal-false : (s t : String) → fold_equal false s t ≡ false
unfolding fold_equal
fold_equal-false nil_text t = refl
fold_equal-false (cons_text c s) nil_text = refl
fold_equal-false (cons_text c s) (cons_text d t) = fold_equal-false s t

pub fold_equal_refl : (s : String) → fold_equal true s s ≡ true
unfolding fold_equal
fold_equal_refl nil_text = refl
fold_equal_refl (cons_text c s) = ground (arith, fold_equal_refl s)

pub fold_equal_sound : (s t : String) → count s ≡ count t → fold_equal true s t ≡ true → s ≡ t
unfolding fold_equal
fold_equal_sound nil_text nil_text n h = refl
fold_equal_sound nil_text (cons_text d t) n h = absurd (omega (arith, count.nil, count.cons d t))
fold_equal_sound (cons_text c s) nil_text n h = absurd (omega (arith, count.nil, count.cons c s))
fold_equal_sound (cons_text c s) (cons_text d t) n h = elim (nat_eq.dec (code c) (code d)) [
  | no differ ↦ absurd (ground (arith, fold_equal-false s t))
  | yes same ↦
      ap₂ cons_text (Char-path c d same)
        (fold_equal_sound s t (omega (arith, count.cons c s, count.cons d t)) (ground arith))
]

module _ (P : Platform) where
  -- A header is accepted for a body and a timestamp exactly if a secret is set and the header is,
  -- without the white space around it, the signature of that body at that time.
  pub verify_iff :
      (svc : WebhookService) (payload : String) (timestamp : ℤ) (header : String)
      → (verify P svc payload timestamp header ≡ true)
        ↔ (sign P svc payload timestamp ≡ some (trim header))
  unfolding verify
  verify_iff svc payload timestamp header = elim (Option-cases (sign P svc payload timestamp)) [
    | inl e ↦ rw e (ground arith)
    | inr (expected, e) ↦
        rw e (ground (arith, fold_equal_sound (trim header) expected, fold_equal_refl expected))
  ]
