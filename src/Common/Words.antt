-- ===== src/Common/Words.antt =====
-- What the program asks of Go strings that hold words: strings.TrimSpace, strings.Contains with one
-- byte, and len, which counts the bytes of the UTF-8 form.
use Prim.Native.Nat.{ℕ, suc, ◌+◌, ◌*◌, ◌≤◌}
use Prim.Native.Char.{code}
use Prim.Native.String.{String}
use mathlib.Core.Bool.{Bool, true, false, ◌&&◌, ◌||◌}
use native.Mathlib.Omega.{arith}
use shuosc_network_server_ba.Common.Tests.{◌==◌, ltb, leb, if◌then◌else◌}

-- unicode.IsSpace.
unfoldable pub is_space : ℕ → Bool
is_space c =
    (leb 9 c && leb c 13)
    || (c == 32)
    || (c == 133)
    || (c == 160)
    || (c == 5760)
    || (leb 8192 c && leb c 8202)
    || (c == 8232)
    || (c == 8233)
    || (c == 8239)
    || (c == 8287)
    || (c == 12288)

unfoldable pub trim_left : String → String
trim_left String.[] = ""
trim_left (String.◌∷◌ c s) =
    let rest = trim_left s in if is_space (code c) then rest else String.◌∷◌ c s

abbrev pub is_empty : String → Bool
is_empty String.[] = true
is_empty (String.◌∷◌ c s) = false

unfoldable pub trim_right : String → String
trim_right String.[] = ""
trim_right (String.◌∷◌ c s) =
    let rest = trim_right s in if is_space (code c) && is_empty rest then "" else String.◌∷◌ c rest

-- strings.TrimSpace.
unfoldable pub trim_space : String → String
trim_space s = trim_right (trim_left s)

-- The bytes of a rune in UTF-8.
unfoldable pub rune_len : ℕ → ℕ
rune_len c = if ltb c 128 then 1 else if ltb c 2048 then 2 else if ltb c 65536 then 3 else 4

-- `+` on strings.
abbrev pub concat : String → String → String
concat String.[] t = t
concat (String.◌∷◌ c s) t = String.◌∷◌ c (concat s t)

-- len(s).
unfoldable pub byte_length : String → ℕ
byte_length String.[] = 0
byte_length (String.◌∷◌ c s) = rune_len (code c) + byte_length s

-- The runes of a string.
unfoldable pub rune_count : String → ℕ
rune_count String.[] = 0
rune_count (String.◌∷◌ c s) = suc (rune_count s)

-- Some rune passes a test.
unfoldable pub any_rune : (ℕ → Bool) → String → Bool
any_rune p String.[] = false
any_rune p (String.◌∷◌ c s) = p (code c) || any_rune p s

unfoldable pub all_runes : (ℕ → Bool) → String → Bool
all_runes p String.[] = true
all_runes p (String.◌∷◌ c s) = p (code c) && all_runes p s

rune_len-le : (c : ℕ) → (1 ≤ rune_len c) × (rune_len c ≤ 4)
unfolding rune_len
rune_len-le c = ground arith

-- A rune takes one to four bytes.
pub byte_length-le :
    (s : String) → (rune_count s ≤ byte_length s) × (byte_length s ≤ 4 * rune_count s)
unfolding byte_length rune_count
byte_length-le String.[] = omega arith
byte_length-le (String.◌∷◌ c s) = ground (arith, rune_len-le (code c), byte_length-le s)
