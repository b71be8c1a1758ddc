-- ===== src/Peer/Ipam/Dotted.antt =====
-- The dotted text of an IPv4 address (net.IP.String) and its reader (net.ParseIP).
use shuosc_network_server_ba.Common.{
  ℕ, ◌+◌, ◌-◌, ◌*◌, ◌/◌, ◌%◌, ◌^◌, ◌<◌, ◌≡◌, ◌∙◌, ap, ◌&&◌, ◌||◌, Option, none, some, [], ◌∷◌, ◌++◌,
  arith, ltb, leb, ◌==◌, if◌then◌else◌,
}
use shuosc_network_server_ba.Common.Text.{Text, decimal}

-- The four bytes of a 32-bit number with dots between them.
unfoldable pub dotted : ℕ → Text
dotted n =
    decimal (n / 2 ^ 24 % 256)
    ++ (b'.'
        ∷ (decimal (n / 2 ^ 16 % 256)
            ++ (b'.' ∷ (decimal (n / 2 ^ 8 % 256) ++ (b'.' ∷ decimal (n % 256))))))

-- The reader of net.ParseIP for a dotted text: `value` is the field that is being read, `count` its
-- digits, `address` the fields before it and `fields` their number.
unfoldable pub parse_fields : Text → ℕ → ℕ → ℕ → ℕ → Option ℕ
parse_fields [] value count address fields =
    if (fields == 3) && ltb 0 count then some (address * 256 + value) else none
parse_fields (c ∷ rest) value count address fields =
    let digit = parse_fields rest (value * 10 + (c - 48)) (count + 1) address fields in
    let next = parse_fields rest 0 0 (address * 256 + value) (fields + 1) in
    if leb 48 c && leb c 57
    then (if (count == 1) && (value == 0)
        then none
        else if ltb 255 (value * 10 + (c - 48))
        then none
        else digit)
    else if c == b'.'
    then (if (count == 0) || (fields == 3) then none else next)
    else none

unfoldable pub parse_ipv4 : Text → Option ℕ
parse_ipv4 t = parse_fields t 0 0 0 0

-- A field is read back, up to the dot behind it.
field-decimal :
    (b : ℕ) (rest : Text) (address fields : ℕ)
    → b < 256
    → fields < 3
    → parse_fields (decimal b ++ (b'.' ∷ rest)) 0 0 address fields
      ≡ parse_fields rest 0 0 (address * 256 + b) (fields + 1)
unfolding parse_fields decimal
field-decimal b rest address fields h k = ground arith

last-decimal :
    (b address : ℕ) → b < 256 → parse_fields (decimal b) 0 0 address 3 ≡ some (address * 256 + b)
unfolding parse_fields decimal
last-decimal b address h = ground arith

-- The reader takes the dotted text of every 32-bit number back to the number.
pub parse_ipv4-dotted : (n : ℕ) → n < 2 ^ 32 → parse_ipv4 (dotted n) ≡ some n
unfolding parse_ipv4 dotted
parse_ipv4-dotted n h =
    field-decimal (n / 2 ^ 24 % 256) _ 0 0 (omega arith) (omega arith)
    ∙ field-decimal (n / 2 ^ 16 % 256) _ _ 1 (omega arith) (omega arith)
    ∙ field-decimal (n / 2 ^ 8 % 256) _ _ 2 (omega arith) (omega arith)
    ∙ last-decimal (n % 256) _ (omega arith)
    ∙ ap {B = Option ℕ} some (omega arith)

-- Two addresses with one text are one address.
pub dotted-injective : (m n : ℕ) → m < 2 ^ 32 → n < 2 ^ 32 → dotted m ≡ dotted n → m ≡ n
dotted-injective m n hm hn e = cc (parse_ipv4-dotted m hm, parse_ipv4-dotted n hn, ap parse_ipv4 e)
