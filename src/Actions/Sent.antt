-- ===== src/Actions/Sent.antt =====
-- The requests that are sent, and what they have passed.
use mathlib.Core.List.{append-nil, append_assoc}
use deko.Prelude.{◌≡◌, sym, ap, ◌∙◌, inr, String, List, [], ◌++◌, All, All-append, string_eq}
use deko.Net.{Url}
use deko.Platform.{Platform}
use deko.World.{World, Request}
use deko.World.Steps.{IsStep}
use deko.Egress

module _ (P : Platform) (url_error : String) where
  -- A URL that passed the static check of the guard.
  abbrev pub IsValidated : Url → Type 0
  IsValidated url = (raw : String) × (Egress.parse P url_error raw ≡ inr url)

  -- A request to a URL that passed both checks of the guard.
  abbrev pub IsGuarded : Request → Type 0
  IsGuarded r =
      (url : Url) × IsValidated url
      × (Egress.assert_resolvable P url ≡ inr tt)
      × (r.url ≡ url.as_str)

-- The new requests have the property.
abbrev pub Relays : {N : Type 0} → (Request → Type 0) → World N → World N → Type 0
Relays Q u v = (rows : List Request) × (v.relayed ≡ u.relayed ++ rows) × All Q rows

pub no_request :
    {Q : Request → Type 0}
    → (rs : List Request) → (rows : List Request) × (rs ≡ rs ++ rows) × All Q rows
no_request rs = ([], sym (append-nil rs), tt)

pub Relays-IsStep : {N : Type 0} {Q : Request → Type 0} → IsStep (Relays {N = N} Q)
Relays-IsStep {Q = Q} = record {
  same = λ w fs n. no_request w.relayed;
  trans = λ u v w (xs, e, h) (ys, f, k). (
    xs ++ ys,
    f ∙ (ap (λ rs. rs ++ ys) e ∙ append_assoc u.relayed xs ys),
    All-append Q xs ys h k,
  );
  back = λ u v h. h;
}
