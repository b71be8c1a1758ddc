-- ===== src/Punch/Stun/RoundTrip.antt =====
-- A binding response attrs a STUN server writes it is read back by parseBindingResponse.
use mathlib.Core.List.{append_assoc}
use shuosc_network_server_ba.Common.{
  ℕ, zero, suc, ◌+◌, ◌*◌, ◌/◌, ◌%◌, ◌^◌, ◌≤◌, ◌<◌, ◌≡◌, refl, ap, sym, ◌∙◌, true, none, some, List,
  [], ◌∷◌, ◌++◌, arith, ltb, length, drop, length-append, All, bit_xor, Bool-cases, inl, inr,
}
use shuosc_network_server_ba.Common.Bits.{bit_xor_twice, bit_xor-lt}
use shuosc_network_server_ba.Common.Text.{Text}
use shuosc_network_server_ba.Punch.Stun.{
  done, uint32, put_uint16, put_uint32, address_of, parse_address_attribute, parse_attributes,
  parse_body, parse_binding_response, binding_success, binding_request, stun_magic_cookie,
  attr_xor_mapped, join_host_port, binding_request_packet, no_response,
}
use shuosc_network_server_ba.Punch.Stun.Slices.{slice-known, drop-append}
use shuosc_network_server_ba.Punch.Stun.Attributes.{
  if-false, bind-known, Attribute, encode_attribute, Encodable, padding, uint16-put,
  attribute_found, attribute_skipped, aligned_again, behind_attribute,
}

abbrev pub encode_attributes : List Attribute → List ℕ
encode_attributes [] = []
encode_attributes (a ∷ attrs) = encode_attribute a ++ encode_attributes attrs

-- An attribute that is no address: the loop goes on behind it.
abbrev pub Skipped : Attribute → Type 0
Skipped a = Encodable a × (parse_address_attribute a.type_of a.value ≡ none)

module _ (packet : List ℕ) (limit : ℕ) (in_packet : limit ≤ length packet) (b : Attribute)
    (sizes : Encodable b) (endpoint : Text)
    (is_address : parse_address_attribute b.type_of b.value ≡ some endpoint) (rest : List ℕ) where
  parse_attributes-skips :
      (attrs : List Attribute) (fuel offset : ℕ)
      → All Skipped attrs
      → offset % 4 ≡ 0
      → length attrs < fuel
      → drop offset packet ≡ encode_attributes attrs ++ (encode_attribute b ++ rest)
      → offset + length (encode_attributes attrs) + 4 + length b.value ≤ limit
      → parse_attributes packet limit fuel offset ≡ done (some endpoint)
  parse_attributes-skips attrs zero offset skipped mult room at_offset within = absurd (omega arith)
  parse_attributes-skips [] (suc fuel) offset skipped mult room at_offset within =
      attribute_found packet rest limit fuel offset b sizes at_offset (omega arith) in_packet
        endpoint is_address
  parse_attributes-skips (a ∷ attrs) (suc fuel) offset skipped mult room at_offset within =
      let tail = encode_attributes attrs ++ (encode_attribute b ++ rest) in
      let here : drop offset packet ≡ encode_attribute a ++ tail =
        at_offset ∙ append_assoc (encode_attribute a) (encode_attributes attrs) _ in
      let size = length-append (encode_attribute a) (encode_attributes attrs) in
      let size_a = length-append a.value (padding (length a.value)) in
      let fits : offset + 4 + length a.value ≤ limit = omega arith in
      attribute_skipped packet tail limit fuel offset a skipped.0.0 here fits in_packet skipped.0.1
        mult
      ∙ parse_attributes-skips attrs fuel (offset + length (encode_attribute a)) skipped.1
          (aligned_again packet tail limit fuel offset a skipped.0.0 here fits in_packet mult)
          (omega arith)
          (behind_attribute packet tail limit fuel offset a skipped.0.0 here fits in_packet)
          (omega arith)

-- The header of a message, and its attributes.
abbrev pub message : ℕ → List ℕ → List ℕ → List ℕ
message msg_type transaction_id body =
    put_uint16 msg_type
    ++ (put_uint16 (length body) ++ (put_uint32 stun_magic_cookie ++ (transaction_id ++ body)))

-- The value of an XOR-MAPPED-ADDRESS attribute for an IPv4 address and a port.
abbrev pub xor_address : ℕ → ℕ → List ℕ
xor_address ip port =
    0
    ∷ 0x01
    ∷ (put_uint16 (bit_xor port (stun_magic_cookie / 2 ^ 16 % 2 ^ 16))
        ++ put_uint32 (bit_xor ip stun_magic_cookie))

abbrev pub xor_mapped : ℕ → ℕ → Attribute
xor_mapped ip port = record { type_of = attr_xor_mapped; value = xor_address ip port }

whole_16 : (v : ℕ) → v < 2 ^ 16 → v / 2 ^ 8 % 256 * 2 ^ 8 + v % 256 ≡ v
whole_16 v h = omega arith

whole_32 :
    (v : ℕ)
    → v < 2 ^ 32
    → v / 2 ^ 24 % 256 * 2 ^ 24 + v / 2 ^ 16 % 256 * 2 ^ 16 + v / 2 ^ 8 % 256 * 2 ^ 8 + v % 256 ≡ v
whole_32 v h = omega arith

parse_xor_address :
    (ip port : ℕ)
    → ip < 2 ^ 32
    → port < 2 ^ 16
    → parse_address_attribute attr_xor_mapped (xor_address ip port) ≡ some (join_host_port ip port)
unfolding parse_address_attribute address_of
parse_xor_address ip port h k = rw (
  whole_16 _ (bit_xor-lt 16 port (stun_magic_cookie / 2 ^ 16 % 2 ^ 16) k (omega arith)),
  whole_32 _ (bit_xor-lt 32 ip stun_magic_cookie h (omega arith)),
  bit_xor_twice ip stun_magic_cookie,
  bit_xor_twice port (stun_magic_cookie / 2 ^ 16 % 2 ^ 16),
)

length-le-encode : (attrs : List Attribute) → length attrs ≤ length (encode_attributes attrs)
length-le-encode [] = omega arith
length-le-encode (a ∷ attrs) =
    omega
      (arith, length-append (encode_attribute a) (encode_attributes attrs), length-le-encode attrs)

module _ (id body : List ℕ) (id_size : length id ≡ 12) (body_size : length body < 2 ^ 16) where
  abbrev packet : List ℕ
  packet = message binding_success id body

  size : length packet ≡ 20 + length body
  size = omega (arith, length-append id body)

  parse_header : parse_binding_response packet ≡ parse_body packet (length body)
  unfolding parse_binding_response uint32
  parse_header = if-false (ltb (length packet) 20) _ _ _ (ground (arith, size)) (
      bind-known _ _ _ _
        (slice-known packet (put_uint16 binding_success) _ 0 2 (omega arith) refl refl)
        (bind-known _ _ _ _ (uint16-put binding_success (omega arith)) (
          bind-known _ _ _ _
            (slice-known packet (put_uint32 stun_magic_cookie) _ 4 8 (omega (arith, size)) refl
              refl)
            (bind-known _ _ _ _
              (slice-known packet (put_uint16 (length body)) _ 2 4 (omega (arith, size)) refl refl)
              (bind-known _ _ _ _ (uint16-put (length body) body_size) refl)))))

  body_at : drop 20 packet ≡ body
  body_at = ap (λ (n : ℕ). drop n (id ++ body)) (sym id_size) ∙ drop-append id body

  parse_known_body :
      (endpoint : Text)
      → parse_attributes packet (20 + length body) (length packet) 20 ≡ done (some endpoint)
      → parse_body packet (length body)
        ≡ done (record { transaction_id = id; endpoint = endpoint; is_ok = true })
  unfolding parse_body
  parse_known_body endpoint found =
      if-false (ltb (length packet) (length body + 20)) _ _ _ (ground (arith, size)) (
        bind-known _ _ _ _
          (slice-known packet id body 8 20 (omega (arith, size)) refl (omega arith))
          (bind-known _ _ _ _ found refl))

-- A binding response with any attributes that are no addresses, padded as RFC 5389 says, then an
-- XOR-MAPPED-ADDRESS, then anything, is read back: parseBindingResponse returns its transaction id,
-- and the address and the port as a text, for all addresses and ports.
pub parse_binding_response-message :
    (id rest : List ℕ) (skipped : List Attribute) (ip port : ℕ)
    → length id ≡ 12
    → All Skipped skipped
    → ip < 2 ^ 32
    → port < 2 ^ 16
    → length (encode_attributes skipped ++ (encode_attribute (xor_mapped ip port) ++ rest)) < 2 ^ 16
    → parse_binding_response (
        message binding_success id
          (encode_attributes skipped ++ (encode_attribute (xor_mapped ip port) ++ rest)))
      ≡ done (record { transaction_id = id; endpoint = join_host_port ip port; is_ok = true })
parse_binding_response-message id rest skipped ip port id_size all_skipped h k body_size =
    let b = xor_mapped ip port in
    let body = encode_attributes skipped ++ (encode_attribute b ++ rest) in
    let total = size id body id_size body_size in
    let sum = length-append (encode_attributes skipped) (encode_attribute b ++ rest) in
    parse_header id body id_size body_size
    ∙ parse_known_body id body id_size body_size (join_host_port ip port) (
        parse_attributes-skips (packet id body id_size body_size) (20 + length body) (omega arith) b
          (omega arith, omega arith) (join_host_port ip port) (parse_xor_address ip port h k) rest
          skipped (length (packet id body id_size body_size)) 20 all_skipped (omega arith)
          (omega (arith, total, sum, length-le-encode skipped)) (body_at id body id_size body_size)
          (omega arith))

-- A request that the service itself sends is not taken for a response.
pub parse_binding_response-request :
    (id : List ℕ) → parse_binding_response (binding_request_packet id) ≡ done no_response
unfolding parse_binding_response binding_request_packet
parse_binding_response-request id =
    elim (Bool-cases (ltb (length (binding_request_packet id)) 20)) [
      | inl short ↦ rw short
      | inr long ↦ if-false (ltb (length (binding_request_packet id)) 20) _ _ _ long (
          bind-known _ _ _ _
            (slice-known (binding_request_packet id) (put_uint16 binding_request) _ 0 2
              (omega arith) refl refl)
            (bind-known _ _ _ _ (uint16-put binding_request (omega arith)) refl))
    ]
