-- ===== src/Egress.antt =====
-- services/egress.rs: the guard of every outbound request. A `Result<_, String>` is a sum with the
-- message on the left. An octet is below 2^8 and a segment below 2^16; a mask with a prefix of ones
-- is written as a division.
pub mod Ranges
pub mod Guard
use deko.Prelude.{
  ℕ, ◌*◌, ◌/◌, ◌%◌, String, ◌<>◌, Bool, true, false, not, ◌&&◌, ◌||◌, ◌⊎◌, inl, inr, Option, none,
  some, List, [], ◌∷◌, unwrap_or, is_some, leb, ◌==◌, nat_eq, string_eq, if◌then◌else◌,
}
use deko.Prelude.Text.{trim_start_matches, trim_end_matches, eq_ignore_ascii_case}
use deko.Net.{IpAddr, v4, v6, Url}
use deko.Platform.{Platform}

unfoldable pub is_permitted_v4 : ℕ → ℕ → ℕ → ℕ → Bool
is_permitted_v4 o0 o1 o2 o3 = not (
    o0 == 0
    || o0 == 10
    || o0 == 127
    || (o0 == 169 && o1 == 254)
    || (o0 == 172 && leb 16 o1 && leb o1 31)
    || (o0 == 192 && o1 == 168)
    || (o0 == 100 && leb 64 o1 && leb o1 127)
    || (o0 == 192 && o1 == 0 && o2 == 2)
    || (o0 == 198 && o1 == 51 && o2 == 100)
    || (o0 == 203 && o1 == 0 && o2 == 113)
    || leb 224 o0)

unfoldable pub is_permitted_v6 : ℕ → ℕ → ℕ → ℕ → ℕ → ℕ → ℕ → ℕ → Bool
unfolding is_permitted_v4
is_permitted_v6 s0 s1 s2 s3 s4 s5 s6 s7 =
    if s0 == 0 && s1 == 0 && s2 == 0 && s3 == 0 && s4 == 0 && s5 == 0xffff
    then is_permitted_v4 (s6 / 256 % 256) (s6 % 256) (s7 / 256 % 256) (s7 % 256)
    else (let zeros = s0 == 0 && s1 == 0 && s2 == 0 && s3 == 0 && s4 == 0 && s5 == 0 && s6 == 0 in
        let is_ula = s0 / 0x200 * 0x200 == 0xfc00 in
        let is_link_local = s0 / 0x40 * 0x40 == 0xfe80 in
        let is_multicast = s0 / 0x100 * 0x100 == 0xff00 in
        not (
          (zeros && s7 == 1)
          || (zeros && s7 == 0)
          || is_ula
          || is_link_local
          || is_multicast
          || (s0 == 0x2001 && s1 == 0x0db8)))

unfoldable pub is_permitted_ip : IpAddr → Bool
unfolding is_permitted_v4 is_permitted_v6
is_permitted_ip (v4 a b c d) = is_permitted_v4 a b c d
is_permitted_ip (v6 s0 s1 s2 s3 s4 s5 s6 s7) = is_permitted_v6 s0 s1 s2 s3 s4 s5 s6 s7

-- The brackets of an IPv6 literal are stripped.
abbrev pub bare : String → String
bare host = trim_end_matches "]" (trim_start_matches "[" host)

module _ (P : Platform) where
  open P use {parse_url, parse_ip, show_ip, to_socket_addrs}

  unfoldable pub check_host : Url → String → Option IpAddr → String ⊎ Url
  check_host url host (some ip) =
      if is_permitted_ip ip
      then inr url
      else inl ("target ip " <> (show_ip ip <> " is in a blocked range"))
  check_host url host none =
      if eq_ignore_ascii_case host "localhost"
      then inl "localhost is not a permitted target"
      else inr url

  unfoldable pub check_url : Url → String ⊎ Url
  unfolding check_host
  check_url url =
      if not ((url.scheme == "http") || (url.scheme == "https"))
      then inl ("scheme '" <> (url.scheme <> "' not allowed"))
      else if not (url.username == "") || is_some url.password
      then inl "userinfo in target url not allowed"
      else elim url.host_str [
        | none ↦ inl "target url has no host"
        | some host ↦ check_host url (bare host) (parse_ip (bare host))
      ]

  -- `ValidatedUrl::parse`; `url_error` stands for the message of the `url` crate.
  unfoldable pub parse : String → String → String ⊎ Url
  unfolding check_url
  parse url_error raw = elim (parse_url raw) [
    | none ↦ inl ("unparseable target url: " <> url_error)
    | some url ↦ check_url url
  ]

  -- The loop over the resolved addresses.
  unfoldable pub check_addrs : Bool → List IpAddr → String ⊎ Unit {0}
  check_addrs saw_any [] = if saw_any then inr tt else inl "host did not resolve to any address"
  check_addrs saw_any (ip ∷ ips) =
      let rest = check_addrs true ips in
      if is_permitted_ip ip
      then rest
      else inl ("resolved address " <> (show_ip ip <> " is in a blocked range"))

  unfoldable pub assert_resolvable : Url → String ⊎ Unit {0}
  unfolding check_addrs
  assert_resolvable url = elim url.host_str [
    | none ↦ inl "target url has no host"
    | some host ↦ elim (to_socket_addrs (bare host) (unwrap_or url.port 80)) [
      | none ↦ inl "dns resolution failed"
      | some ips ↦ check_addrs false ips
    ]
  ]
