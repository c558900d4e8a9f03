-- ===== src/Egress/Guard.antt =====
-- What the guard lets through.
use deko.Prelude.{
  unwrap_or, ◌≡◌, ◌≢◌, ◌↔◌, ◌⊎◌, inl, inr, String, Bool, true, false, none, some, List, [], ◌∷◌,
  All, arith, string_eq, Option-cases,
}
use deko.Prelude.Text.{eq_ignore_ascii_case}
use deko.Net.{IpAddr, Url}
use deko.Platform.{Platform}
use deko.Egress.{is_permitted_ip, bare, check_host, check_url, check_addrs, assert_resolvable}

abbrev pub is_inr {ℓ} : {A B : Type ℓ} → A ⊎ B → Bool
is_inr (inl a) = false
is_inr (inr b) = true

-- The host as the guard reads it: a permitted literal address, or a name that is not localhost.
abbrev pub IsSafeHost : (P : Platform) → String → Type 0
IsSafeHost P host = elim (P.parse_ip host) [
  | some ip ↦ is_permitted_ip ip ≡ true
  | none ↦ eq_ignore_ascii_case host "localhost" ≡ false
]

module _ (P : Platform) where
  check_host_iff :
      (url : Url) (host : String)
      → (is_inr (check_host P url host (P.parse_ip host)) ≡ true) ↔ IsSafeHost P host
  unfolding check_host
  check_host_iff url host = elim (Option-cases (P.parse_ip host)) [
    | inl e ↦ rw e (ground arith)
    | inr (ip, e) ↦ rw e (ground arith)
  ]

  -- A URL passes the static check exactly if its scheme is http or https, it has no user name and
  -- no password, and it has a host that is a permitted literal address or a name other than
  -- localhost.
  pub check_url_iff :
      (url : Url)
      → (is_inr (check_url P url) ≡ true) ↔ (
          ((url.scheme ≡ "http") ⊎ (url.scheme ≡ "https"))
          × (url.username ≡ "")
          × (url.password ≡ none)
          × ((host : String) × (url.host_str ≡ some host) × IsSafeHost P (bare host)))
  unfolding check_url
  check_url_iff url = elim (Option-cases url.host_str) [
    | inl e ↦ rw e (ground arith)
    | inr (host, e) ↦ rw e (ground (arith, check_host_iff url (bare host)))
  ]

  check_addrs_iff :
      (saw_any : Bool) (ips : List IpAddr)
      → (check_addrs P saw_any ips ≡ inr tt)
        ↔ (All (λ ip. is_permitted_ip ip ≡ true) ips × ((saw_any ≡ true) ⊎ (ips ≢ [])))
  unfolding check_addrs
  check_addrs_iff saw_any [] = ground arith
  check_addrs_iff saw_any (ip ∷ ips) = ground (arith, check_addrs_iff true ips)

-- A host that the resolver answers with a list of addresses may be contacted exactly if there is an
-- address and all of them are permitted.
pub assert_resolvable_iff :
    (P : Platform) (url : Url) (host : String) (ips : List IpAddr)
    → url.host_str ≡ some host
    → P.to_socket_addrs (bare host) (unwrap_or url.port 80) ≡ some ips
    → (assert_resolvable P url ≡ inr tt) ↔ (All (λ ip. is_permitted_ip ip ≡ true) ips × (ips ≢ []))
unfolding assert_resolvable
assert_resolvable_iff P url host ips h r = ground (arith, check_addrs_iff P false ips)
