-- ===== src/Common/Integers.antt =====
-- Go ints, and strconv.Atoi.
use Prim.Native.Nat.{ℕ, zero, suc, ◌+◌, ◌-◌, ◌*◌, ◌^◌, ◌≤◌}
use Prim.Native.Char.{code}
use Prim.Native.String.{String}
use mathlib.Core.Bool.{Bool, true, false, not, ◌&&◌}
use mathlib.Core.Option.{Option, none, some}
use native.Mathlib.Omega.{arith}
use shuosc_network_server_ba.Common.Tests.{◌==◌, ltb, leb, if◌then◌else◌}

-- A Go int.
pub data ℤ : Type 0 where
  pos negsuc : ℕ → ℤ

abbrev pub at_least : ℕ → ℤ → Bool
at_least n (pos m) = leb n m
at_least n (negsuc m) = false

abbrev pub magnitude : ℤ → ℕ
magnitude (pos n) = n
magnitude (negsuc n) = 0

-- strconv.ParseUint in base 10.
pub data Unsigned : Type 0 where
  number : ℕ → Unsigned
  bad_syntax out_of_range : Unsigned

abbrev pub is_decimal : ℕ → Bool
is_decimal c = leb 48 c && leb c 57

unfoldable pub parse_digits : ℕ → String → Unsigned
parse_digits n String.[] = number n
parse_digits n (String.◌∷◌ c s) =
    let next = n * 10 + (code c - 48) in
    let rest = parse_digits next s in
    if not (is_decimal (code c))
    then bad_syntax
    else if leb (2 ^ 64) next
    then out_of_range
    else rest

unfoldable pub parse_uint : String → Unsigned
parse_uint String.[] = bad_syntax
parse_uint (String.◌∷◌ c s) = parse_digits 0 (String.◌∷◌ c s)

abbrev pub max_int : ℕ
max_int = 2 ^ 63 - 1

abbrev pub negated : ℕ → ℤ
negated zero = pos zero
negated (suc n) = negsuc n

-- The value that strconv.Atoi returns beside an error, too: 0, or the nearest int.
unfoldable pub signed : Bool → Unsigned → ℤ
signed minus bad_syntax = pos 0
signed false out_of_range = pos max_int
signed true out_of_range = negsuc max_int
signed false (number n) = if ltb max_int n then pos max_int else pos n
signed true (number n) = if ltb (2 ^ 63) n then negsuc max_int else negated n

unfoldable pub atoi : String → ℤ
unfolding signed parse_uint
atoi String.[] = pos 0
atoi (String.◌∷◌ c s) =
    if code c == 45
    then signed true (parse_uint s)
    else if code c == 43
    then signed false (parse_uint s)
    else signed false (parse_uint (String.◌∷◌ c s))

-- strconv.Atoi where only a value without an error counts.
abbrev in_range : Bool → Unsigned → Bool
in_range minus bad_syntax = false
in_range minus out_of_range = false
in_range false (number n) = leb n max_int
in_range true (number n) = leb n (2 ^ 63)

abbrev checked : Bool → Unsigned → Option ℤ
checked minus u = if in_range minus u then some (signed minus u) else none

unfoldable pub parse_int : String → Option ℤ
unfolding signed parse_uint
parse_int String.[] = none
parse_int (String.◌∷◌ c s) =
    if code c == 45
    then checked true (parse_uint s)
    else if code c == 43
    then checked false (parse_uint s)
    else checked false (parse_uint (String.◌∷◌ c s))

negated-le : (n : ℕ) → magnitude (negated n) ≤ max_int
negated-le zero = omega arith
negated-le (suc n) = omega arith

either-le :
    (b : Bool) (x y : ℤ)
    → magnitude x ≤ max_int
    → magnitude y ≤ max_int
    → magnitude (if b then x else y) ≤ max_int
either-le true x y h k = h
either-le false x y h k = k

signed-le : (minus : Bool) (u : Unsigned) → magnitude (signed minus u) ≤ max_int
unfolding signed
signed-le minus bad_syntax = omega arith
signed-le false out_of_range = omega arith
signed-le true out_of_range = omega arith
signed-le false (number n) = ground arith
signed-le true (number n) = either-le _ (negsuc max_int) (negated n) (omega arith) (negated-le n)

pub atoi-le : (s : String) → magnitude (atoi s) ≤ max_int
unfolding atoi
atoi-le String.[] = omega arith
atoi-le (String.◌∷◌ c s) = either-le (code c == 45) _ _ (signed-le true (parse_uint s)) (
    either-le (code c == 43) _ _ (signed-le false (parse_uint s))
      (signed-le false (parse_uint (String.◌∷◌ c s))))
