-- ===== src/Punch/Stun/Total.antt =====
-- parseBindingResponse returns for every packet: no index is out of range, and the loop ends.
use shuosc_network_server_ba.Common.{
  ℕ, zero, suc, ◌+◌, ◌*◌, ◌≤◌, ◌≡◌, refl, inl, inr, Bool, true, false, not, Option, none, some,
  List, arith, ltb, leb, ◌==◌, if◌then◌else◌, length, Bool-cases,
}
use shuosc_network_server_ba.Punch.Stun.{
  Outcome, done, ◌>>=◌, slice, uint16, uint32, align, parse_address_attribute, parse_attributes,
  parse_body, parse_binding_response, Response, response_of, no_response, binding_success,
  stun_magic_cookie,
}
use shuosc_network_server_ba.Punch.Stun.Slices.{slice-done, uint16-done, uint32-done}

align_bounds : (n : ℕ) → (n ≤ align n) × (align n ≤ n + 3)
unfolding align
align_bounds n = ground arith

-- A number read from two bytes within the packet.
read_uint16 :
    (s : List ℕ) (lo : ℕ)
    → lo + 2 ≤ length s
    → (t : List ℕ) × (n : ℕ) × (slice s lo (lo + 2) ≡ done t) × (uint16 t ≡ done n)
read_uint16 s lo h =
    let (t, is_t, len) = slice-done s lo (lo + 2) (omega arith) h in
    let (n, is_n) = uint16-done t (omega arith) in (t, n, is_t, is_n)

-- A run that returns, and the rules for the ways in which the code is put together.
abbrev Returns {ℓ} : {A : Type ℓ} → Outcome A → Type ℓ
Returns {A} m = (r : A) × (m ≡ done r)

Returns-bind {ℓ κ} :
    {A : Type ℓ} {B : Type κ} (m : Outcome A) (f : A → Outcome B) (a : A)
    → m ≡ done a
    → Returns (f a)
    → Returns (m >>= f)
Returns-bind m f a e (b, e') = (b, rw e e')

module _ {ℓ} {A : Type ℓ} where
  Returns-if :
      (c : Bool) (x y : Outcome A)
      → (c ≡ true → Returns x)
      → (c ≡ false → Returns y)
      → Returns (if c then x else y)
  Returns-if true x y t f = t refl
  Returns-if false x y t f = f refl

  Returns-elim :
      (c : Bool) (x y : Outcome A)
      → (c ≡ true → Returns x)
      → (c ≡ false → Returns y)
      → Returns {A = A} (elim c [ true ↦ x | false ↦ y ])
  Returns-elim true x y t f = t refl
  Returns-elim false x y t f = f refl

  Returns-option {κ} :
      {B : Type κ} (o : Option B) (x : B → Outcome A) (y : Outcome A)
      → ((b : B) → Returns (x b))
      → Returns y
      → Returns {A = A} (elim o [ some b ↦ x b | none ↦ y ])
  Returns-option (some b) x y s n = s b
  Returns-option none x y s n = n

parse_attributes_total :
    (packet : List ℕ) (limit fuel offset : ℕ)
    → limit ≤ length packet
    → limit + 4 ≤ offset + 4 * fuel
    → offset ≤ limit + 3
    → Returns (parse_attributes packet limit fuel offset)
unfolding parse_attributes
parse_attributes_total packet limit zero offset h k b = absurd (omega arith)
parse_attributes_total packet limit (suc fuel) offset h k b =
    Returns-elim (leb (offset + 4) limit) _ _
      (λ more.
        let (t, attr_type, is_t, is_type) = read_uint16 packet offset (ground arith) in
        let (l, is_l, size_l) =
          slice-done packet (offset + 2) (offset + 4) (omega arith) (ground arith) in
        let (len, is_len) = uint16-done l (omega arith) in
        let goes_on = parse_attributes_total packet limit fuel (align (offset + 4 + len)) h in
        Returns-bind _ _ t is_t (
          Returns-bind _ _ attr_type is_type (
            Returns-bind _ _ l is_l (
              Returns-bind _ _ len is_len (
                Returns-elim (ltb limit (offset + 4 + len)) _ _ (λ long. (none, refl))
                  (λ fits.
                    let (v, is_v, size_v) =
                      slice-done packet (offset + 4) (offset + 4 + len) (omega arith)
                        (ground arith) in
                    Returns-bind _ _ v is_v (
                      Returns-option (parse_address_attribute attr_type v) _ _ (λ e. (some e, refl))
                        (goes_on (omega (arith, align_bounds (offset + 4 + len)))
                          (ground (arith, align_bounds (offset + 4 + len)))))))))))
      (λ over. (none, refl))

parse_body_total :
    (packet : List ℕ) (len : ℕ) → 20 ≤ length packet → Returns (parse_body packet len)
unfolding parse_body
parse_body_total packet len h =
    Returns-if (ltb (length packet) (len + 20)) _ _ (λ cut. (no_response, refl))
      (λ whole.
        let (id, is_id, size_id) = slice-done packet 8 20 (omega arith) h in
        let (found, is_found) =
          parse_attributes_total packet (20 + len) (length packet) 20 (ground arith) (ground arith)
            (omega arith) in
        Returns-bind _ _ id is_id (Returns-bind _ _ found is_found (response_of id found, refl)))

module _ (packet t c l : List ℕ) (msg_type cookie len : ℕ) (is_t : slice packet 0 2 ≡ done t)
    (is_type : uint16 t ≡ done msg_type) (is_c : slice packet 4 8 ≡ done c)
    (is_cookie : uint32 c ≡ done cookie) (is_l : slice packet 2 4 ≡ done l)
    (is_len : uint16 l ≡ done len) (long : ltb (length packet) 20 ≡ false) where
  read_header : Returns (parse_binding_response packet)
  unfolding parse_binding_response
  read_header =
      let body = parse_body_total packet len (ground arith) in
      Returns-if (ltb (length packet) 20) _ _ (λ short. (no_response, refl))
        (λ _. Returns-bind _ _ t is_t (
          Returns-bind _ _ msg_type is_type (
            Returns-if (not (msg_type == binding_success)) _ _ (λ other. (no_response, refl))
              (λ _. Returns-bind _ _ c is_c (
                Returns-bind _ _ cookie is_cookie (
                  Returns-if (not (cookie == stun_magic_cookie)) _ _ (λ other. (no_response, refl))
                    (λ _. Returns-bind _ _ l is_l (Returns-bind _ _ len is_len body))))))))

-- For every packet, whatever its bytes, parseBindingResponse returns: no slice or index is out of
-- range, and the fuel is enough.
pub parse_binding_response_total :
    (packet : List ℕ) → (r : Response) × (parse_binding_response packet ≡ done r)
parse_binding_response_total packet = elim (Bool-cases (ltb (length packet) 20)) [
  | inl short ↦ (no_response, unfold parse_binding_response in rw short)
  | inr long ↦
      let (t, msg_type, is_t, is_type) = read_uint16 packet 0 (ground arith) in
      let (c, is_c, size_c) = slice-done packet 4 8 (omega arith) (ground arith) in
      let (cookie, is_cookie) = uint32-done c (omega arith) in
      let (l, is_l, size_l) = slice-done packet 2 4 (omega arith) (ground arith) in
      let (len, is_len) = uint16-done l (omega arith) in
      read_header packet t c l msg_type cookie len is_t is_type is_c is_cookie is_l is_len long
]
