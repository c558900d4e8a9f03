-- ===== src/Examples/Guard.antt =====
-- The egress guard and the webhook signature on concrete addresses and headers.
use deko.Prelude.{◌≡◌, ◌↔◌, ◌⊎◌, String, true, Option, none, some, [], ◌∷◌, string_eq}
use deko.Net.{v4, Url}
use deko.Platform.{Platform}
use deko.Egress.{bare, check_url}
use deko.Egress.Guard.{is_inr, IsSafeHost, check_url_iff}
use deko.Webhook.{WebhookService}
use deko.Examples.{test_platform}

-- A resolver that knows two addresses of every host.
abbrev resolving : Platform
resolving = record test_platform {
  to_socket_addrs = λ h p. some (v4 93 184 216 34 ∷ v4 10 0 0 1 ∷ []);
}

abbrev a_url : Url
a_url = record {
  as_str = "https://example.org/";
  scheme = "https";
  username = "";
  password = none;
  host_str = some "example.org";
  port = some 443;
}

abbrev a_hook : WebhookService
a_hook = record { webhook_url = none; webhook_secret = some "secret" }

check_url_iff_example : (is_inr (check_url test_platform a_url) ≡ true) ↔ (
    ((◌≡◌ {A = String} "https" "http") ⊎ (◌≡◌ {A = String} "https" "https"))
    × (◌≡◌ {A = String} "" "")
    × (◌≡◌ {A = Option String} none none)
    × ((host : String) × (some "example.org" ≡ some host) × IsSafeHost test_platform (bare host)))
check_url_iff_example = check_url_iff test_platform a_url
