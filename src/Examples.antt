-- ===== src/Examples.antt =====
-- Concrete inputs: a platform on which the models run, and the theorems at inputs that meet their
-- hypotheses.
pub mod Verdicts
pub mod Guard
pub mod Policy
pub mod Audit
pub mod Access
pub mod Control
pub mod Settings
pub mod Login
pub mod Rounds
pub mod Uploads
pub mod Tokens
pub mod Routes
pub mod Runs
pub mod Keys
use deko.Prelude.{
  ℕ, String, Bool, true, false, Option, none, some, List, [], ◌+◌, ◌*◌, ◌-◌, ltb, leb,
}
use deko.Prelude.Int.{pos}
use deko.Prelude.Text.{contains, show_nat, show_int}
use deko.Json.{Value, null, number}
use deko.Platform.{Platform}

-- Numbers are naturals, a hash is its text, and a regular expression is a word to look for.
abbrev pub test_platform : Platform
test_platform = record {
  Number = ℕ;
  F64 = ℕ;
  as_i64 = λ n. some (pos n);
  as_f64 = λ n. some n;
  from_nat = λ n. n;
  json_f64 = λ n. number n;
  from_str = λ s. none;
  print = λ v. "{}";
  gt_f64 = λ a b. ltb b a;
  ge_f64 = λ a b. leb b a;
  add_f64 = λ a b. a + b;
  sub_f64 = λ a b. a - b;
  mul_f64 = λ a b. a * b;
  div_f64 = λ a b. a;
  sqrt_f64 = λ a. a;
  abs_f64 = λ a. a;
  clamp_f64 = λ a b c. a;
  nat_f64 = λ n. n;
  f64_as_usize = λ a. a;
  f64_lit = λ s. 0;
  show_f64 = show_nat;
  show_fixed = λ d n. show_nat n;
  to_lowercase = λ s. s;
  to_uppercase = λ s. s;
  regex = λ p. some (λ s. contains s p);
  regex_find = λ p. some (λ s. []);
  sha256 = λ s. s;
  hmac_sha256 = λ k s. k;
  uuid = show_nat;
  simple_uuid = show_nat;
  rfc3339_to_sqlite = λ s. none;
  parse_rfc3339 = λ s. none;
  sqlite_time = show_int;
  rfc3339 = show_int;
  parse_url = λ s. none;
  join_url = λ s l. none;
  parse_ip = λ s. none;
  show_ip = λ i. "";
  to_socket_addrs = λ h p. none;
  json_reals = λ p xs. some [];
  sql_avg = λ xs. none;
  sql_sum = λ xs. none;
}
