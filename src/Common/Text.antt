-- ===== src/Common/Text.antt =====
-- Go strings that the program builds or reads byte by byte (IP addresses, endpoints) are lists of
-- bytes; `TextSet` is a `map[string]bool` whose entries are set to true or deleted.
use Prim.Native.Nat.{ℕ, ◌+◌, ◌/◌, ◌%◌}
use Prim.Native.Char.{code}
use Prim.Native.String.{String}
use mathlib.Core.Path.{◌≡◌, refl, ◌∙◌}
use mathlib.Core.Logic.{◌↔◌}
use mathlib.Core.Bool.{Bool, true, false, not, ◌&&◌, ◌||◌}
use mathlib.Core.List.{List, [], ◌∷◌}
use native.Mathlib.Omega.{arith}
use shuosc_network_server_ba.Common.Tests.{◌==◌, ltb, if◌then◌else◌}
use shuosc_network_server_ba.Common.Lists.{select}

abbrev pub Text : Type 0
Text = List ℕ

-- The bytes of an ASCII literal.
abbrev pub bytes : String → Text
bytes String.[] = []
bytes (String.◌∷◌ c s) = code c ∷ bytes s

unfoldable pub text_eq : Text → Text → Bool
text_eq [] [] = true
text_eq [] (d ∷ t) = false
text_eq (c ∷ s) [] = false
text_eq (c ∷ s) (d ∷ t) = (c == d) && text_eq s t

pub text_eq_sound : (s t : Text) → text_eq s t ≡ true → s ≡ t
unfolding text_eq
text_eq_sound [] [] h = refl
text_eq_sound [] (d ∷ t) h = ground arith
text_eq_sound (c ∷ s) [] h = ground arith
text_eq_sound (c ∷ s) (d ∷ t) h = ground (arith, text_eq_sound s t)

pub text_eq_refl : (s : Text) → text_eq s s ≡ true
unfolding text_eq
text_eq_refl [] = refl
text_eq_refl (c ∷ s) = ground (arith, text_eq_refl s)

pub text_eq_iff : (s t : Text) → (text_eq s t ≡ true) ↔ (s ≡ t)
text_eq_iff s t = (text_eq_sound s t, λ e. rw e (text_eq_refl t))

abbrev pub TextSet : Type 0
TextSet = List Text

unfoldable pub contains : TextSet → Text → Bool
contains [] t = false
contains (s ∷ ss) t = text_eq s t || contains ss t

unfoldable pub add : Text → TextSet → TextSet
add t ss = if contains ss t then ss else t ∷ ss

unfoldable pub delete : Text → TextSet → TextSet
delete t ss = select (λ s. not (text_eq s t)) ss

pub contains-add :
    (t u : Text) (ss : TextSet) → contains (add t ss) u ≡ (text_eq t u || contains ss u)
unfolding add contains
contains-add t u ss = ground (arith, text_eq_iff t u)

pub contains-delete :
    (t u : Text) (ss : TextSet) → contains (delete t ss) u ≡ (not (text_eq t u) && contains ss u)
unfolding delete contains
contains-delete t u [] = ground arith
contains-delete t u (s ∷ ss) =
    ground (arith, contains-delete t u ss, text_eq_iff s t, text_eq_iff t u, text_eq_iff s u)

-- Deleting what is not there changes nothing.
pub delete-absent : (t : Text) (ss : TextSet) → contains ss t ≡ false → delete t ss ≡ ss
unfolding delete contains
delete-absent t [] h = refl
delete-absent t (s ∷ ss) h = ground (arith, delete-absent t ss)

pub delete-cons_self : (t : Text) (ss : TextSet) → delete t (t ∷ ss) ≡ delete t ss
unfolding delete
delete-cons_self t ss = ground (arith, text_eq_refl t)

pub add-fresh : (t : Text) (ss : TextSet) → contains ss t ≡ false → add t ss ≡ t ∷ ss
unfolding add
add-fresh t ss h = rw h

pub add-nil : (t : Text) → add t [] ≡ t ∷ []
unfolding add contains
add-nil t = refl

-- Deleting what was added anew restores the set.
pub delete-add : (t : Text) (ss : TextSet) → contains ss t ≡ false → delete t (add t ss) ≡ ss
unfolding add
delete-add t ss h = rw h (delete-cons_self t ss ∙ delete-absent t ss h)

-- `fmt.Sprintf("%d", n)` for a number of at most five digits.
unfoldable pub decimal : ℕ → Text
decimal n =
    if ltb n 10
    then (48 + n) ∷ []
    else if ltb n 100
    then (48 + n / 10) ∷ (48 + n % 10) ∷ []
    else if ltb n 1000
    then (48 + n / 100) ∷ (48 + n / 10 % 10) ∷ (48 + n % 10) ∷ []
    else if ltb n 10000
    then (48 + n / 1000) ∷ (48 + n / 100 % 10) ∷ (48 + n / 10 % 10) ∷ (48 + n % 10) ∷ []
    else (48 + n / 10000)
      ∷ (48 + n / 1000 % 10)
      ∷ (48 + n / 100 % 10)
      ∷ (48 + n / 10 % 10)
      ∷ (48 + n % 10)
      ∷ []
