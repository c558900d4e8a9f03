-- ===== src/Prelude/Text.antt =====
-- What the program uses of Rust's `str`: `contains`, `trim`, the strip functions, `replace`, `join`,
-- and the decimal printing of integers. Lengths are those of the UTF-8 bytes (`len`).
use Prim.Native.Nat.{ℕ, zero, suc, ◌/◌, ◌%◌, ◌+◌, Ordering}
use Prim.Native.Char.{Char, code}
use Prim.Native.String.{count, String, [], ◌∷◌, ◌++◌, compare}
use mathlib.Core.Bool.{Bool, true, false, ◌&&◌, ◌||◌}
use mathlib.Core.Option.{Option, none, some}
use mathlib.Core.List.{List}
use text.Mathlib.Text.{find?}
use deko.Prelude.Tests.{ltb, leb, if◌then◌else◌}
use deko.Prelude.Equality.{◌==◌, nat_eq, string_eq}
use deko.Prelude.Int.{ℤ, pos, negsuc}

-- `str::contains`
unfoldable pub contains : String → String → Bool
contains s t = elim (find? s t) [ none ↦ false | some _ ↦ true ]

-- `char::is_whitespace`, the Unicode property White_Space.
unfoldable pub is_whitespace : Char → Bool
is_whitespace c =
    let n = code c in
    (leb 9 n && leb n 13)
    || n == 32
    || n == 0x85
    || n == 0xa0
    || n == 0x1680
    || (leb 0x2000 n && leb n 0x200a)
    || n == 0x2028
    || n == 0x2029
    || n == 0x202f
    || n == 0x205f
    || n == 0x3000

unfoldable pub trim_start : String → String
unfolding is_whitespace
trim_start [] = []
trim_start (c ∷ s) = if is_whitespace c then trim_start s else c ∷ s

unfoldable pub trim_end : String → String
unfolding is_whitespace
trim_end [] = []
trim_end (c ∷ s) = let rest = trim_end s in if is_whitespace c && rest == "" then "" else c ∷ rest

-- `str::trim`
unfoldable pub trim : String → String
unfolding trim_start trim_end
trim s = trim_end (trim_start s)

-- `str::strip_prefix`
unfoldable pub strip_prefix : String → String → Option String
strip_prefix [] s = some s
strip_prefix (c ∷ p) [] = none
strip_prefix (c ∷ p) (d ∷ s) = if code c == code d then strip_prefix p s else none

-- A prefix that is not empty is stripped at most as often as the text has characters.
strip_from : ℕ → String → String → String
unfolding strip_prefix
strip_from zero p s = s
strip_from (suc fuel) p s = elim (strip_prefix p s) [
  | none ↦ s
  | some rest ↦ strip_from fuel p rest
]

reverse_onto : String → String → String
reverse_onto out [] = out
reverse_onto out (c ∷ s) = reverse_onto (c ∷ out) s

-- `trim_start_matches` and `trim_end_matches` with a text
unfoldable pub trim_start_matches : String → String → String
unfolding strip_from
trim_start_matches p s = strip_from (count s) p s

unfoldable pub trim_end_matches : String → String → String
unfolding strip_from reverse_onto
trim_end_matches p s =
    reverse_onto "" (strip_from (count s) (reverse_onto "" p) (reverse_onto "" s))

-- `str::replace` of a text that is not empty: the rounds are at most the characters and one.
replace_from : ℕ → String → String → String → String
unfolding strip_prefix
replace_from zero find new s = s
replace_from (suc fuel) find new [] = []
replace_from (suc fuel) find new (c ∷ s) = elim (strip_prefix find (c ∷ s)) [
  | some rest ↦ new ++ replace_from fuel find new rest
  | none ↦ c ∷ replace_from fuel find new s
]

-- Replacing the empty text puts the other one around every character.
replace_gaps : String → String → String
replace_gaps new [] = new
replace_gaps new (c ∷ s) = new ++ (c ∷ replace_gaps new s)

-- `str::replace`
unfoldable pub replace : String → String → String → String
unfolding replace_from replace_gaps
replace [] new s = replace_gaps new s
replace (c ∷ find) new s = replace_from (count s) (c ∷ find) new s

-- `[String]::join`
unfoldable pub join : String → List String → String
join sep List.[] = ""
join sep (List.◌∷◌ s List.[]) = s
join sep (List.◌∷◌ s rest) = s ++ (sep ++ join sep rest)

abbrev digit : ℕ → Char
digit zero = "0"
digit (suc zero) = "1"
digit (suc (suc zero)) = "2"
digit (suc (suc (suc zero))) = "3"
digit (suc (suc (suc (suc zero)))) = "4"
digit (suc (suc (suc (suc (suc zero))))) = "5"
digit (suc (suc (suc (suc (suc (suc zero)))))) = "6"
digit (suc (suc (suc (suc (suc (suc (suc zero))))))) = "7"
digit (suc (suc (suc (suc (suc (suc (suc (suc zero)))))))) = "8"
digit (suc (suc (suc (suc (suc (suc (suc (suc (suc rest))))))))) = "9"

-- The digits of `n` in front of `out`. A number has at most as many digits as its value plus one.
show_from : ℕ → ℕ → String → String
show_from zero n out = out
show_from (suc fuel) n out =
    let longer = show_from fuel (n / 10) (digit (n % 10) ∷ out) in
    if ltb n 10 then digit n ∷ out else longer

-- `Display` of the unsigned and signed integers
unfoldable pub show_nat : ℕ → String
unfolding show_from
show_nat n = show_from (n + 1) n ""

unfoldable pub show_int : ℤ → String
unfolding show_nat
show_int (pos n) = show_nat n
show_int (negsuc n) = "-" ++ show_nat (n + 1)

abbrev ascii_lower : ℕ → ℕ
ascii_lower n = if leb b'A' n && leb n b'Z' then n + 32 else n

-- `str::eq_ignore_ascii_case`
unfoldable pub eq_ignore_ascii_case : String → String → Bool
eq_ignore_ascii_case [] [] = true
eq_ignore_ascii_case [] (_ ∷ _) = false
eq_ignore_ascii_case (_ ∷ _) [] = false
eq_ignore_ascii_case (c ∷ s) (d ∷ t) =
    ascii_lower (code c) == ascii_lower (code d) && eq_ignore_ascii_case s t

-- The order of texts by their bytes, which SQLite and Rust compare by.
abbrev pub leb_text : String → String → Bool
leb_text s t = elim (compare s t) [ Ordering.gt ↦ false | _ ↦ true ]

abbrev pub ltb_text : String → String → Bool
ltb_text s t = elim (compare s t) [ Ordering.lt ↦ true | _ ↦ false ]
