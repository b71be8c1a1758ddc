-- ===== src/Config/Placeholders.antt =====
-- The placeholders of a configuration file.
use Prim.Native.Char.{code}
use shuosc_network_server_ba.Common.{
  String, ◌≡◌, refl, ap, ◌∙◌, sym, subst, Bool, true, false, ◌||◌, arith, ◌==◌,
}
use shuosc_network_server_ba.Common.Words.{concat, is_empty, any_rune}
use shuosc_network_server_ba.Config.{outside, inside, substitute}

concat-snoc :
    (a s : String) (c : _)
    → concat (concat a (String.◌∷◌ c String.[])) s ≡ concat a (String.◌∷◌ c s)
concat-snoc String.[] s c = refl
concat-snoc (String.◌∷◌ d a) s c = ap (λ t. String.◌∷◌ d t) (concat-snoc a s c)

concat-empty : (s : String) → concat s String.[] ≡ s
concat-empty String.[] = refl
concat-empty (String.◌∷◌ c s) = ap (λ t. String.◌∷◌ c t) (concat-empty s)

or-false : (a b : Bool) → (a || b) ≡ false → (a ≡ false) × (b ≡ false)
or-false true b e = ground arith
or-false false b e = (refl, e)

module _ (getenv : String → String) where
  -- Text without a dollar sign is left as it is.
  plain-text :
      (a s : String)
      → any_rune (λ c. c == 36) a ≡ false
      → substitute getenv outside (concat a s) ≡ concat a (substitute getenv outside s)
  unfolding substitute any_rune
  plain-text String.[] s h = refl
  plain-text (String.◌∷◌ c a) s h =
      let (other, rest) = or-false (code c == 36) (any_rune (λ c. c == 36) a) h in
      rw other (ap (λ t. String.◌∷◌ c t) (plain-text a s rest))

  read-name :
      (name n s : String)
      → any_rune (λ c. c == 125) n ≡ false
      → is_empty (concat name n) ≡ false
      → substitute getenv (inside name) (concat n (concat "}" s))
        ≡ concat (getenv (concat name n)) (substitute getenv outside s)
  unfolding substitute any_rune
  read-name name String.[] s h k =
      let filled = subst (λ t. is_empty t ≡ false) (concat-empty name) k in
      rw (filled, concat-empty name) refl
  read-name name (String.◌∷◌ c n) s h k =
      let (other, rest) = or-false (code c == 125) (any_rune (λ c. c == 125) n) h in
      let longer = concat-snoc name n c in
      rw (other, sym longer)
        (read-name (concat name (String.◌∷◌ c String.[])) n s rest
          (subst (λ t. is_empty t ≡ false) (sym longer) k))

  -- Load replaces a placeholder by the variable it names, and goes on behind it, if the name is not
  -- empty and has no closing brace and no dollar sign stands before.
  pub substitute-placeholder :
      (a name s : String)
      → any_rune (λ c. c == 36) a ≡ false
      → any_rune (λ c. c == 125) name ≡ false
      → is_empty name ≡ false
      → substitute getenv outside (concat a (concat "${" (concat name (concat "}" s))))
        ≡ concat a (concat (getenv name) (substitute getenv outside s))
  unfolding substitute
  substitute-placeholder a name s plain closed named =
      plain-text a _ plain ∙ ap (concat a) (read-name "" name s closed named)
