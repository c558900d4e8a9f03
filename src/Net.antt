-- ===== src/Net.antt =====
-- The addresses of std::net and the parts of a URL that the egress guard reads.
use deko.Prelude.{ℕ, String, Option}

-- The octets, and the segments of 16 bits.
pub data IpAddr : Type 0 where
  v4 : (a b c d : ℕ) → IpAddr
  v6 : (s0 s1 s2 s3 s4 s5 s6 s7 : ℕ) → IpAddr

pub record Url : Type 0 where
  pub as_str : String
  pub scheme : String
  pub username : String
  pub password : Option String
  pub host_str : Option String
  pub port : Option ℕ
