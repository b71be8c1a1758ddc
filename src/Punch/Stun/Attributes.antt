-- ===== src/Punch/Stun/Attributes.antt =====
-- The attribute loop of parseBindingResponse, one attribute at a time.
use mathlib.Core.List.{append_assoc}
use shuosc_network_server_ba.Common.{
  ℕ, suc, ◌+◌, ◌-◌, ◌*◌, ◌/◌, ◌%◌, ◌^◌, ◌≤◌, ◌<◌, ◌≡◌, refl, ap, ◌∙◌, Bool, true, false, Option,
  none, some, List, [], ◌∷◌, ◌++◌, arith, ltb, leb, ◌==◌, if◌then◌else◌, length, drop,
  length-append,
}
use shuosc_network_server_ba.Common.Text.{Text}
use shuosc_network_server_ba.Punch.Stun.{
  Outcome, done, ◌>>=◌, slice, uint16, align, put_uint16, parse_address_attribute, parse_attributes,
}
use shuosc_network_server_ba.Punch.Stun.Slices.{slice-known, drop-drop, drop-append}

-- An attribute as RFC 5389 lays it out: type, length, value, and zeros up to a multiple of four.
abbrev pub padding : ℕ → List ℕ
padding n =
    if n % 4 == 0
    then []
    else if n % 4 == 1
    then 0 ∷ 0 ∷ 0 ∷ []
    else if n % 4 == 2
    then 0 ∷ 0 ∷ []
    else 0 ∷ []

pub record Attribute : Type 0 where
  pub type_of : ℕ
  pub value : List ℕ

abbrev pub encode_attribute : Attribute → List ℕ
encode_attribute a =
    put_uint16 a.type_of ++ (put_uint16 (length a.value) ++ (a.value ++ padding (length a.value)))

-- The type and the length of the value are 16-bit numbers.
abbrev pub Encodable : Attribute → Type 0
Encodable a = (a.type_of < 2 ^ 16) × (length a.value < 2 ^ 16)

pub uint16-put : (v : ℕ) → v < 2 ^ 16 → uint16 (put_uint16 v) ≡ done v
unfolding uint16
uint16-put v h = let e : v / 2 ^ 8 % 256 * 2 ^ 8 + v % 256 ≡ v = omega arith in ap done e

length-padding : (n : ℕ) → length (padding n) ≡ (4 - n % 4) % 4
length-padding n = ground arith

align-padding :
    (offset n : ℕ) → offset % 4 ≡ 0 → align (offset + 4 + n) ≡ offset + (4 + n + length (padding n))
unfolding align
align-padding offset n h = ground (arith, length-padding n)

-- Rules to run a do block whose steps are known.
pub bind-known {ℓ κ} :
    {A : Type ℓ} {B : Type κ} (m : Outcome A) (f : A → Outcome B) (a : A) (r : Outcome B)
    → m ≡ done a
    → f a ≡ r
    → (m >>= f) ≡ r
bind-known m f a r e e' = rw e e'

module _ {ℓ} {A : Type ℓ} where
  pub if-false : (c : Bool) (x y r : Outcome A) → c ≡ false → y ≡ r → (if c then x else y) ≡ r
  if-false true x y r e h = cc
  if-false false x y r e h = h

  elim-true :
      (c : Bool) (x y r : Outcome A)
      → c ≡ true
      → x ≡ r
      → ◌≡◌ {A = Outcome A} (elim c [ true ↦ x | false ↦ y ]) r
  elim-true true x y r e h = h
  elim-true false x y r e h = cc

  elim-false :
      (c : Bool) (x y r : Outcome A)
      → c ≡ false
      → y ≡ r
      → ◌≡◌ {A = Outcome A} (elim c [ true ↦ x | false ↦ y ]) r
  elim-false true x y r e h = cc
  elim-false false x y r e h = h

-- What the loop does with the attribute that it reads.
after_attribute : List ℕ → ℕ → ℕ → ℕ → Option Text → Outcome (Option Text)
after_attribute packet limit fuel value_end (some e) = done (some e)
after_attribute packet limit fuel value_end none =
    parse_attributes packet limit fuel (align value_end)

after-elim :
    (packet : List ℕ) (limit fuel value_end : ℕ) (o : Option Text)
    → ◌≡◌ {A = Outcome (Option Text)}
        (elim o [
          | some e ↦ done (some e)
          | none ↦ parse_attributes packet limit fuel (align value_end)
        ])
        (after_attribute packet limit fuel value_end o)
unfolding after_attribute
after-elim packet limit fuel value_end none = refl
after-elim packet limit fuel value_end (some e) = refl

module _ (packet rest : List ℕ) (limit fuel offset : ℕ) (a : Attribute) (sizes : Encodable a)
    (at_offset : drop offset packet ≡ encode_attribute a ++ rest)
    (within : offset + 4 + length a.value ≤ limit) (in_packet : limit ≤ length packet) where
  open a use {type_of, value}

  behind : (n : ℕ) → drop (offset + n) packet ≡ drop n (encode_attribute a ++ rest)
  behind n = drop-drop offset n (offset + n) packet refl ∙ ap (drop n) at_offset

  read_type : slice packet offset (offset + 2) ≡ done (put_uint16 type_of)
  read_type =
      slice-known packet (put_uint16 type_of) _ offset (offset + 2) (omega arith) at_offset
        (omega arith)

  read_length : slice packet (offset + 2) (offset + 4) ≡ done (put_uint16 (length value))
  read_length =
      slice-known packet (put_uint16 (length value)) _ (offset + 2) (offset + 4) (omega arith)
        (behind 2) (omega arith)

  read_value : slice packet (offset + 4) (offset + 4 + length value) ≡ done value
  read_value =
      slice-known packet value (padding (length value) ++ rest) (offset + 4)
        (offset + 4 + length value) (omega arith)
        (behind 4 ∙ append_assoc value (padding (length value)) rest) refl

  attribute_step :
      parse_attributes packet limit (suc fuel) offset
      ≡ after_attribute packet limit fuel
          (offset + 4 + length value)
          (parse_address_attribute type_of value)
  unfolding parse_attributes after_attribute
  attribute_step = elim-true (leb (offset + 4) limit) _ _ _ (ground arith) (
      bind-known _ _ _ _ read_type (
        bind-known _ _ _ _ (uint16-put type_of sizes.0) (
          bind-known _ _ _ _ read_length (
            bind-known _ _ _ _ (uint16-put (length value) sizes.1) (
              elim-false (ltb limit (offset + 4 + length value)) _ _ _ (ground arith) (
                bind-known _ _ _ _ read_value (
                  after-elim packet limit fuel (offset + 4 + length value)
                    (parse_address_attribute type_of value))))))))

  -- An address attribute ends the loop.
  pub attribute_found :
      (endpoint : Text)
      → parse_address_attribute type_of value ≡ some endpoint
      → parse_attributes packet limit (suc fuel) offset ≡ done (some endpoint)
  unfolding after_attribute
  attribute_found endpoint e =
      attribute_step ∙ ap (after_attribute packet limit fuel (offset + 4 + length value)) e

  pub length-encode_attribute :
      length (encode_attribute a) ≡ 4 + length value + length (padding (length value))
  length-encode_attribute = omega (arith, length-append value (padding (length value)))

  -- Behind any other attribute and its padding the loop goes on, at an offset that is aligned again.
  pub attribute_skipped :
      parse_address_attribute type_of value ≡ none
      → offset % 4 ≡ 0
      → parse_attributes packet limit (suc fuel) offset
        ≡ parse_attributes packet limit fuel (offset + length (encode_attribute a))
  unfolding after_attribute
  attribute_skipped e mult =
      let next : align (offset + 4 + length value) ≡ offset + length (encode_attribute a) =
        omega (arith, align-padding offset (length value) mult, length-encode_attribute) in
      attribute_step
      ∙ ap (after_attribute packet limit fuel (offset + 4 + length value)) e
      ∙ ap (parse_attributes packet limit fuel) next

  pub behind_attribute : drop (offset + length (encode_attribute a)) packet ≡ rest
  behind_attribute = behind (length (encode_attribute a)) ∙ drop-append (encode_attribute a) rest

  pub aligned_again : offset % 4 ≡ 0 → (offset + length (encode_attribute a)) % 4 ≡ 0
  aligned_again mult = omega (arith, length-encode_attribute, length-padding (length value))
