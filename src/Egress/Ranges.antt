-- ===== src/Egress/Ranges.antt =====
-- The addresses that the guard permits, against the register of special-purpose blocks.
use deko.Prelude.{
  ◌%◌, ◌/◌, ℕ, ◌⊎◌, ◌≤◌, ◌+◌, ◌*◌, ◌/◌, ◌<◌, ◌≡◌, refl, List, [], ◌∷◌, arith, nat_eq,
}
use deko.Net.{v4, v6}
use deko.Egress.{is_permitted_v4, is_permitted_v6, is_permitted_ip}

-- A block of addresses: the numeric value of its first one, and the size of the block.
abbrev pub Block : Type 0
Block = ℕ × ℕ

-- The 32 bits of an address.
abbrev pub bits : ℕ → ℕ → ℕ → ℕ → ℕ
bits a b c d = a * 0x1000000 + b * 0x10000 + c * 0x100 + d

-- The special-purpose blocks of RFC 6890 that are not globally reachable, multicast included: this
-- network, private use, shared address space, loopback, link-local, private use, protocol
-- assignments, documentation, private use, benchmarking, documentation twice, multicast, reserved.
abbrev pub special_blocks : List Block
special_blocks =
    (bits 0 0 0 0, 0x1000000)
    ∷ (bits 10 0 0 0, 0x1000000)
    ∷ (bits 100 64 0 0, 0x400000)
    ∷ (bits 127 0 0 0, 0x1000000)
    ∷ (bits 169 254 0 0, 0x10000)
    ∷ (bits 172 16 0 0, 0x100000)
    ∷ (bits 192 0 0 0, 0x100)
    ∷ (bits 192 0 2 0, 0x100)
    ∷ (bits 192 168 0 0, 0x10000)
    ∷ (bits 198 18 0 0, 0x20000)
    ∷ (bits 198 51 100 0, 0x100)
    ∷ (bits 203 0 113 0, 0x100)
    ∷ (bits 224 0 0 0, 0x10000000)
    ∷ (bits 240 0 0 0, 0x10000000)
    ∷ []

abbrev pub IsOutside : ℕ → Block → Type 0
IsOutside ip (first, size) = (ip < first) ⊎ (first + size ≤ ip)

abbrev pub IsInside : ℕ → Block → Type 0
IsInside ip (first, size) = (first ≤ ip) × (ip < first + size)

is_permitted_v6-mapped :
    (s6 s7 : ℕ)
    → is_permitted_v6 0 0 0 0 0 0xffff s6 s7
      ≡ is_permitted_v4 (s6 / 256 % 256) (s6 % 256) (s7 / 256 % 256) (s7 % 256)
unfolding is_permitted_v6 nat_eq
is_permitted_v6-mapped s6 s7 = refl

-- An IPv6 address that carries an IPv4 address is permitted exactly if the IPv4 address is.
pub is_permitted_ip-mapped :
    (a b c d : ℕ)
    → a < 256
    → b < 256
    → c < 256
    → d < 256
    → is_permitted_ip (v6 0 0 0 0 0 0xffff (a * 256 + b) (c * 256 + d))
      ≡ is_permitted_ip (v4 a b c d)
unfolding is_permitted_ip
is_permitted_ip-mapped a b c d ha hb hc hd =
    let e0 : (a * 256 + b) / 256 % 256 ≡ a = omega arith in
    let e1 : (a * 256 + b) % 256 ≡ b = omega arith in
    let e2 : (c * 256 + d) / 256 % 256 ≡ c = omega arith in
    let e3 : (c * 256 + d) % 256 ≡ d = omega arith in rw (is_permitted_v6-mapped, e0, e1, e2)
