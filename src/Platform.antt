-- ===== src/Platform.antt =====
-- What the program takes from code that is not its own: serde_json's numbers, parser and printer,
-- the `regex`, `sha2`, `uuid` and `hmac` crates, chrono's formats, SQLite's reading of JSON columns,
-- `f64`, the Unicode case tables, the `url` crate and the resolver. Every definition that uses one of these takes a `Platform`; no
-- law of it is assumed here.
use deko.Prelude.{ℕ, Option, String, Bool, List}
use deko.Prelude.Int.{ℤ}
use deko.Json.{Value}
use deko.Net.{Url, IpAddr}

pub record Platform : Type 1 where
  -- serde_json
  pub Number : Type 0
  pub F64 : Type 0
  pub as_i64 : Number → Option ℤ
  pub as_f64 : Number → Option F64
  pub from_nat : ℕ → Number
  pub json_f64 : F64 → Value Number
  pub from_str : String → Option (Value Number)
  pub print : Value Number → String
  -- `f64`; a literal is given by its text, and `show_fixed n` is `{:.n}`
  pub gt_f64 : F64 → F64 → Bool
  pub ge_f64 : F64 → F64 → Bool
  pub add_f64 : F64 → F64 → F64
  pub sub_f64 : F64 → F64 → F64
  pub mul_f64 : F64 → F64 → F64
  pub div_f64 : F64 → F64 → F64
  pub sqrt_f64 : F64 → F64
  pub abs_f64 : F64 → F64
  pub clamp_f64 : F64 → F64 → F64 → F64
  pub nat_f64 : ℕ → F64
  pub f64_as_usize : F64 → ℕ
  pub f64_lit : String → F64
  pub show_f64 : F64 → String
  pub show_fixed : ℕ → F64 → String
  -- the case tables of `str`
  pub to_lowercase : String → String
  pub to_uppercase : String → String
  -- `Regex::new` with `is_match`, and with the texts of `find_iter`
  pub regex : String → Option (String → Bool)
  pub regex_find : String → Option (String → List String)
  -- `hex::encode` of SHA-256 over the bytes of the text, and of HMAC-SHA-256 with a secret
  pub sha256 : String → String
  pub hmac_sha256 : String → String → String
  -- The ids that are drawn, with hyphens and `simple`
  pub uuid : ℕ → String
  pub simple_uuid : ℕ → String
  -- `parse_from_rfc3339`, then the format '%Y-%m-%d %H:%M:%S' in UTC; and that format and
  -- `to_rfc3339` of a time in seconds
  pub rfc3339_to_sqlite : String → Option String
  pub parse_rfc3339 : String → Option ℤ
  pub sqlite_time : ℤ → String
  pub rfc3339 : ℤ → String
  -- `Url::parse`, `str::parse::<IpAddr>`, and `to_socket_addrs` of a host and a port
  pub parse_url : String → Option Url
  -- `Url::parse` and `join` with a location
  pub join_url : String → String → Option Url
  pub parse_ip : String → Option IpAddr
  pub show_ip : IpAddr → String
  pub to_socket_addrs : String → ℕ → Option (List IpAddr)
  -- `CAST(JSON_EXTRACT(payload, path) AS REAL)` of each row that has one; `none` is an SQL error
  pub json_reals : String → List String → Option (List F64)
  -- `AVG` and `SUM`, NULL over no rows
  pub sql_avg : List F64 → Option F64
  pub sql_sum : List F64 → Option F64
