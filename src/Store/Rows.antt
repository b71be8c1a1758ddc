-- ===== src/Store/Rows.antt =====
-- Tables as lists of rows: what `UPDATE ... WHERE` and `DELETE ... WHERE` do, and how they change the
-- number of rows that a test counts.
use shuosc_network_server_ba.Common.{
  ℕ, ◌+◌, ◌≤◌, ◌≡◌, refl, Bool, true, false, some, List, [], ◌∷◌, arith, if◌then◌else◌, first,
  count, String, ◌==◌, str_eq,
}

abbrev pub one_if : Bool → ℕ
one_if true = 1
one_if false = 0

module _ {ℓ} {A : Type ℓ} where
  unfoldable pub update_where : (A → Bool) → (A → A) → List A → List A
  update_where p f [] = []
  update_where p f (x ∷ xs) = (if p x then f x else x) ∷ update_where p f xs

  unfoldable pub delete_where : (A → Bool) → List A → List A
  delete_where p [] = []
  delete_where p (x ∷ xs) = let rest = delete_where p xs in if p x then rest else x ∷ rest

  pub update_where-none :
      (p : A → Bool) (f : A → A) (xs : List A) → count p xs ≡ 0 → update_where p f xs ≡ xs
  unfolding update_where
  update_where-none p f [] h = refl
  update_where-none p f (x ∷ xs) h = ground (arith, update_where-none p f xs)

  -- A statement that meets one row changes a count by what it does to this row.
  pub count-update_where :
      (p q : A → Bool) (f : A → A) (xs : List A) (x : A)
      → count p xs ≤ 1
      → first p xs ≡ some x
      → count q (update_where p f xs) + one_if (q x) ≡ count q xs + one_if (q (f x))
  unfolding update_where
  count-update_where p q f [] x h e = ground arith
  count-update_where p q f (y ∷ ys) x h e =
      ground (arith, update_where-none p f ys, count-update_where p q f ys x)

  pub count-delete_where : (p q : A → Bool) (xs : List A) → count q (delete_where p xs) ≤ count q xs
  unfolding delete_where
  count-delete_where p q [] = omega arith
  count-delete_where p q (x ∷ xs) = ground (arith, count-delete_where p q xs)

-- A row of a GROUP BY with COUNT(*).
pub record Group : Type 0 where
  pub label : String
  pub size : ℕ

-- The rows for given labels: one for each that occurs. PostgreSQL leaves their order open, and rows of
-- other labels, which the callers do not look up, may stand between them.
abbrev pub groups : (String → ℕ) → List String → List Group
groups size [] = []
groups size (l ∷ ls) =
    let rest = groups size ls in
    if size l == 0 then rest else record { label = l; size = size l } ∷ rest

-- The map that CountByStatus and CountByState make of the rows: 0 for a label without one.
abbrev pub size_of : String → List Group → ℕ
size_of label [] = 0
size_of label (g ∷ gs) = if str_eq g.label label then g.size else size_of label gs
