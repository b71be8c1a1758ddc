-- ===== src/Punch/Stun.antt =====
-- The STUN messages of internal/punch/service.go. A byte slice is a list of numbers below 256.
pub mod Slices
pub mod Total
pub mod Attributes
pub mod RoundTrip
use shuosc_network_server_ba.Common.{
  ℕ, zero, suc, ◌+◌, ◌-◌, ◌*◌, ◌/◌, ◌%◌, ◌^◌, bit_xor, Bool, true, false, ◌&&◌, ◌||◌, not, Option,
  none, some, List, [], ◌∷◌, ◌++◌, ltb, leb, ◌==◌, if◌then◌else◌, length, take, drop,
}
use shuosc_network_server_ba.Common.Text.{Text, decimal}
use shuosc_network_server_ba.Peer.Ipam.Dotted.{dotted}

-- A run of Go code: `panicked` is an index out of range, and `stuck` is no Go value but a loop that
-- ran out of fuel.
pub data Outcome {ℓ} (A : Type ℓ) : Type ℓ where
  done : A → Outcome A
  panicked : Outcome A
  stuck : Outcome A

infixl 5 ◌>>=◌
abbrev pub ◌>>=◌ {ℓ κ} : {A : Type ℓ} {B : Type κ} → Outcome A → (A → Outcome B) → Outcome B
done a >>= f = f a
panicked >>= f = panicked
stuck >>= f = stuck

abbrev pub binding_request : ℕ
binding_request = 0x0001

abbrev pub binding_success : ℕ
binding_success = 0x0101

abbrev pub attr_mapped_addr : ℕ
attr_mapped_addr = 0x0001

abbrev pub attr_xor_mapped : ℕ
attr_xor_mapped = 0x0020

abbrev pub stun_magic_cookie : ℕ
stun_magic_cookie = 0x2112A442

-- `s[lo:hi]`
unfoldable pub slice : List ℕ → ℕ → ℕ → Outcome (List ℕ)
slice s lo hi =
    if leb lo hi && leb hi (length s) then done (take (hi - lo) (drop lo s)) else panicked

-- binary.BigEndian.Uint16 and Uint32, which index the bytes that they read.
unfoldable pub uint16 : List ℕ → Outcome ℕ
uint16 (a ∷ b ∷ rest) = done (a * 2 ^ 8 + b)
uint16 _ = panicked

unfoldable pub uint32 : List ℕ → Outcome ℕ
uint32 (a ∷ b ∷ c ∷ d ∷ rest) = done (a * 2 ^ 24 + b * 2 ^ 16 + c * 2 ^ 8 + d)
uint32 _ = panicked

-- binary.BigEndian.PutUint16 and PutUint32: the bytes that they write.
abbrev pub put_uint16 : ℕ → List ℕ
put_uint16 v = (v / 2 ^ 8 % 256) ∷ (v % 256) ∷ []

abbrev pub put_uint32 : ℕ → List ℕ
put_uint32 v = (v / 2 ^ 24 % 256) ∷ (v / 2 ^ 16 % 256) ∷ (v / 2 ^ 8 % 256) ∷ (v % 256) ∷ []

-- net.JoinHostPort of an IPv4 address and a port.
unfoldable pub join_host_port : ℕ → ℕ → Text
join_host_port ip port = dotted ip ++ (b':' ∷ decimal port)

-- The switch of parseAddressAttribute.
unfoldable pub address_of : ℕ → ℕ → ℕ → Option Text
unfolding join_host_port
address_of attr_type port ip_raw =
    if attr_type == attr_xor_mapped
    then some (
        join_host_port (bit_xor ip_raw stun_magic_cookie)
          (bit_xor port (stun_magic_cookie / 2 ^ 16 % 2 ^ 16)))
    else if attr_type == attr_mapped_addr
    then some (join_host_port ip_raw port)
    else none

-- parseAddressAttribute: the first clause is for values of eight bytes or more.
unfoldable pub parse_address_attribute : ℕ → List ℕ → Option Text
parse_address_attribute attr_type (v0 ∷ family ∷ p0 ∷ p1 ∷ i0 ∷ i1 ∷ i2 ∷ i3 ∷ rest) =
    if family == 0x01
    then address_of attr_type (p0 * 2 ^ 8 + p1) (i0 * 2 ^ 24 + i1 * 2 ^ 16 + i2 * 2 ^ 8 + i3)
    else none
parse_address_attribute attr_type _ = none

-- `offset = valueEnd; if rem := offset % 4; rem != 0 { offset += 4 - rem }`
pub align : ℕ → ℕ
align offset = if offset % 4 == 0 then offset else offset + (4 - offset % 4)

-- The loop over the attributes: the endpoint that it returns, if any.
pub parse_attributes : List ℕ → ℕ → ℕ → ℕ → Outcome (Option Text)
parse_attributes packet limit zero offset = stuck
parse_attributes packet limit (suc fuel) offset = elim (leb (offset + 4) limit) [
  | false ↦ done none
  | true ↦ do
    t ← slice packet offset (offset + 2)
    attr_type ← uint16 t
    l ← slice packet (offset + 2) (offset + 4)
    attr_len ← uint16 l
    let value_end = offset + 4 + attr_len
    elim (ltb limit value_end) [
      | true ↦ done none
      | false ↦ do
        value ← slice packet (offset + 4) value_end
        elim (parse_address_attribute attr_type value) [
          | some endpoint ↦ done (some endpoint)
          | none ↦ parse_attributes packet limit fuel (align value_end)
        ]
    ]
]

-- The results of parseBindingResponse.
pub record Response : Type 0 where
  pub transaction_id : List ℕ
  pub endpoint : Text
  pub is_ok : Bool

abbrev pub zero_id : List ℕ
zero_id = 0 ∷ 0 ∷ 0 ∷ 0 ∷ 0 ∷ 0 ∷ 0 ∷ 0 ∷ 0 ∷ 0 ∷ 0 ∷ 0 ∷ []

abbrev pub no_response : Response
no_response = record { transaction_id = zero_id; endpoint = []; is_ok = false }

abbrev pub response_of : List ℕ → Option Text → Response
response_of id none = record { transaction_id = id; endpoint = []; is_ok = false }
response_of id (some e) = record { transaction_id = id; endpoint = e; is_ok = true }

-- parseBindingResponse after the checks of the header, at the length that it announces. Each round of
-- the loop moves the offset by four bytes at least, so that the length of the packet is fuel enough.
pub parse_body : List ℕ → ℕ → Outcome Response
parse_body packet msg_len = if ltb (length packet) (msg_len + 20) then done no_response else do
  transaction_id ← slice packet 8 20
  found ← parse_attributes packet (20 + msg_len) (length packet) 20
  done (response_of transaction_id found)

-- parseBindingResponse.
pub parse_binding_response : List ℕ → Outcome Response
parse_binding_response packet = if ltb (length packet) 20 then done no_response else do
  t ← slice packet 0 2
  msg_type ← uint16 t
  if not (msg_type == binding_success) then done no_response else do
    c ← slice packet 4 8
    cookie ← uint32 c
    if not (cookie == stun_magic_cookie)
        then done no_response
        else do l ← slice packet 2 4; msg_len ← uint16 l; parse_body packet msg_len

-- bindingRequestPacket, for the random transaction id that crypto/rand gives.
pub binding_request_packet : List ℕ → List ℕ
binding_request_packet transaction_id =
    put_uint16 binding_request ++ (put_uint16 0 ++ (put_uint32 stun_magic_cookie ++ transaction_id))
