-- ===== src/Prelude/Parse.antt =====
-- What the program reads out of texts with Rust's `str`: `split` at a character, `starts_with`, and
-- `parse` of the integer types.
use Prim.Native.Nat.{ℕ, ◌+◌, ◌-◌, ◌*◌, ◌^◌}
use Prim.Native.Char.{Char, code}
use Prim.Native.String.{String, [], ◌∷◌}
use mathlib.Core.Bool.{Bool, ◌&&◌}
use mathlib.Core.Option.{Option, none, some}
use mathlib.Core.List.{List}
use deko.Prelude.Tests.{ltb, leb, is_some, if◌then◌else◌}
use deko.Prelude.Equality.{◌==◌, nat_eq}
use deko.Prelude.Int.{ℤ, pos, negsuc}
use deko.Prelude.Text.{strip_prefix}

-- `str::starts_with`
unfoldable pub starts_with : String → String → Bool
unfolding strip_prefix
starts_with p s = is_some (strip_prefix p s)

-- The character in front of the first part.
abbrev onto_first : Char → List String → List String
onto_first c List.[] = List.◌∷◌ (c ∷ []) List.[]
onto_first c (List.◌∷◌ part parts) = List.◌∷◌ (c ∷ part) parts

-- `str::split` at a character, given by its code
unfoldable pub split : ℕ → String → List String
split sep [] = List.◌∷◌ "" List.[]
split sep (c ∷ s) =
    let parts = split sep s in if code c == sep then List.◌∷◌ "" parts else onto_first c parts

-- Digits behind the number `acc`.
unfoldable pub digits : ℕ → String → Option ℕ
digits acc [] = some acc
digits acc (c ∷ s) =
    if leb b'0' (code c) && leb (code c) b'9' then digits (acc * 10 + (code c - b'0')) s else none

unfoldable pub number_of : String → Option ℕ
unfolding digits
number_of [] = none
number_of (c ∷ s) = digits 0 (c ∷ s)

abbrev below : ℕ → Option ℕ → Option ℕ
below limit none = none
below limit (some n) = if ltb n limit then some n else none

abbrev unsigned : String → String
unsigned [] = []
unsigned (c ∷ s) = if code c == b'+' then s else c ∷ s

-- `parse` of an unsigned type whose values are below the limit. A plus sign may stand in front.
unfoldable pub parse_unsigned : ℕ → String → Option ℕ
unfolding number_of
parse_unsigned limit s = below limit (number_of (unsigned s))

abbrev negated : Option ℕ → Option ℤ
negated none = none
negated (some n) = some (if n == 0 then pos 0 else negsuc (n - 1))

abbrev positive : Option ℕ → Option ℤ
positive none = none
positive (some n) = some (pos n)

-- `parse::<i64>`
unfoldable pub parse_i64 : String → Option ℤ
unfolding number_of parse_unsigned
parse_i64 [] = none
parse_i64 (c ∷ s) =
    if code c == b'-'
    then negated (below (2 ^ 63 + 1) (number_of s))
    else positive (parse_unsigned (2 ^ 63) (c ∷ s))
