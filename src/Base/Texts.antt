-- ===== src/Base/Texts.antt =====
-- Go strings: lists of bytes, compared byte by byte.
use Prim.Native.Char.{code}
use Prim.Native.String.{String}
use Prim.Native.Nat.{ℕ}
use mathlib.Core.Path.{◌≡◌, refl}
use mathlib.Core.Logic.{◌≢◌}
use mathlib.Core.Bool.{Bool, true, false, ◌&&◌, ◌||◌}
use mathlib.Core.List.{List, [], ◌∷◌}
use native.Mathlib.Omega.{arith}
unfoldable use native.Mathlib.Decide.{ℕ_discrete}
use terminal_redeemer.Base.Tests.{◌==◌, ltb, if◌then◌else◌}

abbrev pub Text : Type 0
Text = List ℕ

-- The bytes of an ASCII literal.
abbrev pub codes : String → Text
codes String.[] = []
codes (String.◌∷◌ c s) = code c ∷ codes s

cons_discrete :
    {x y : ℕ} {xs ys : Text} → Dec (x ≡ y) → Dec (xs ≡ ys) → Dec (◌≡◌ {A = Text} (x ∷ xs) (y ∷ ys))
cons_discrete (yes p) (yes q) = yes (cc)
cons_discrete (yes p) (no q) = no (λ e. q (cc))
cons_discrete (no p) _ = no (λ e. p (cc))

unfoldable pub text_discrete : Discrete Text
unfolding cons_discrete
text_discrete [] [] = yes refl
text_discrete [] (y ∷ ys) = no (λ e. cc)
text_discrete (x ∷ xs) [] = no (λ e. cc)
text_discrete (x ∷ xs) (y ∷ ys) = cons_discrete (ℕ_discrete x y) (text_discrete xs ys)

abbrev pub same : Text → Text → Bool
same a b = elim (text_discrete a b) [ yes _ ↦ true | no _ ↦ false ]

-- `a < b` on strings.
unfoldable pub text_ltb : Text → Text → Bool
text_ltb [] [] = false
text_ltb [] (y ∷ ys) = true
text_ltb (x ∷ xs) [] = false
text_ltb (x ∷ xs) (y ∷ ys) = ltb x y || (x == y && text_ltb xs ys)

test_same : same (codes "ab") (codes "ab") ≡ true
unfolding text_discrete ℕ_discrete
test_same = refl

same_split : (a b c d : Text) → (if same a b then c else d) ≡ c → a ≢ b → c ≡ d
same_split a b c d h k = ground arith
