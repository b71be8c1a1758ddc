-- ===== src/Punch/Stun/Slices.antt =====
-- Slices of a packet, and the numbers read from them.
use shuosc_network_server_ba.Common.{
  ℕ, zero, suc, ◌+◌, ◌-◌, ◌*◌, ◌^◌, ◌≤◌, ◌≡◌, refl, ap, List, [], ◌∷◌, ◌++◌, arith, length, take,
  drop, length-append, sym,
}
use shuosc_network_server_ba.Punch.Stun.{done, slice, uint16, uint32}

module _ {ℓ} {A : Type ℓ} where
  pub length-take : (n : ℕ) (xs : List A) → n ≤ length xs → length (take n xs) ≡ n
  length-take zero xs h = refl
  length-take (suc n) [] h = absurd (omega arith)
  length-take (suc n) (x ∷ xs) h = omega (arith, length-take n xs (omega arith))

  pub length-drop : (n : ℕ) (xs : List A) → length (drop n xs) ≡ length xs - n
  length-drop zero xs = omega arith
  length-drop (suc n) [] = omega arith
  length-drop (suc n) (x ∷ xs) = omega (arith, length-drop n xs)

  drop-nil : (n : ℕ) → drop {A = A} n [] ≡ []
  drop-nil zero = refl
  drop-nil (suc n) = refl

  pub drop-drop : (m n k : ℕ) (xs : List A) → k ≡ m + n → drop k xs ≡ drop n (drop m xs)
  drop-drop zero n k xs e = let same : k ≡ n = omega arith in ap (λ (j : ℕ). drop j xs) same
  drop-drop (suc m) n zero xs e = absurd (omega arith)
  drop-drop (suc m) n (suc k) [] e = sym (drop-nil n)
  drop-drop (suc m) n (suc k) (x ∷ xs) e = drop-drop m n k xs (omega arith)

  pub drop-append : (xs ys : List A) → drop (length xs) (xs ++ ys) ≡ ys
  drop-append [] ys = refl
  drop-append (x ∷ xs) ys = drop-append xs ys

  pub take-append : (xs ys : List A) → take (length xs) (xs ++ ys) ≡ xs
  take-append [] ys = refl
  take-append (x ∷ xs) ys = ap (◌∷◌ x) (take-append xs ys)

  pub length-drop-append :
      (n : ℕ) (s xs ys : List A)
      → n ≤ length s
      → drop n s ≡ xs ++ ys
      → length s ≡ n + length xs + length ys
  length-drop-append n s xs ys h e =
      omega (arith, length-drop n s, ap length e, length-append xs ys)

-- A slice within the packet is taken, and has the length that its bounds say.
pub slice-done :
    (s : List ℕ) (lo hi : ℕ)
    → lo ≤ hi
    → hi ≤ length s
    → (t : List ℕ) × (slice s lo hi ≡ done t) × (length t ≡ hi - lo)
unfolding slice
slice-done s lo hi h k = (
  take (hi - lo) (drop lo s),
  ground arith,
  length-take (hi - lo) (drop lo s) (omega (arith, length-drop {0} lo s)),
)

pub uint16-done : (s : List ℕ) → length s ≡ 2 → (n : ℕ) × (uint16 s ≡ done n)
unfolding uint16
uint16-done [] h = absurd (omega arith)
uint16-done (a ∷ []) h = absurd (omega arith)
uint16-done (a ∷ b ∷ rest) h = (a * 2 ^ 8 + b, refl)

pub uint32-done : (s : List ℕ) → length s ≡ 4 → (n : ℕ) × (uint32 s ≡ done n)
unfolding uint32
uint32-done [] h = absurd (omega arith)
uint32-done (a ∷ []) h = absurd (omega arith)
uint32-done (a ∷ b ∷ []) h = absurd (omega arith)
uint32-done (a ∷ b ∷ c ∷ []) h = absurd (omega arith)
uint32-done (a ∷ b ∷ c ∷ d ∷ rest) h = (a * 2 ^ 24 + b * 2 ^ 16 + c * 2 ^ 8 + d, refl)

-- A slice of which the bytes are known.
pub slice-known :
    (s v rest : List ℕ) (lo hi : ℕ)
    → lo ≤ length s
    → drop lo s ≡ v ++ rest
    → hi ≡ lo + length v
    → slice s lo hi ≡ done v
unfolding slice
slice-known s v rest lo hi h e k =
    let size = length-drop-append lo s v rest h e in
    let width : hi - lo ≡ length v = omega arith in rw (width, e, take-append) (ground arith)
