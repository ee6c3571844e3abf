-- ===== src/Base/Integers.antt =====
-- Go's `int`, within its range: signed integers over the native numbers.
use Prim.Native.Nat.{ℕ, suc, ◌+◌}
use mathlib.Core.Bool.{Bool, true, false}
use native.Mathlib.Decide.{ℕ_discrete}
use terminal_redeemer.Base.Tests.{ltb}

-- `negsuc n` is -(n + 1).
pub data ℤ : Type 0 where
  pos : ℕ → ℤ
  negsuc : ℕ → ℤ

abbrev pub pos_part : ℤ → ℕ
pos_part (pos n) = n
pos_part (negsuc n) = 0

abbrev pub neg_part : ℤ → ℕ
neg_part (pos n) = 0
neg_part (negsuc n) = suc n

abbrev pub ltb_ℤ : ℤ → ℤ → Bool
ltb_ℤ a b = ltb (pos_part a + neg_part b) (pos_part b + neg_part a)

unfoldable pub ℤ_discrete : Discrete ℤ
ℤ_discrete (pos a) (pos b) = elim (ℕ_discrete a b) [ yes p ↦ yes (cc) | no p ↦ no (λ e. p (cc)) ]
ℤ_discrete (pos a) (negsuc b) = no (λ e. cc)
ℤ_discrete (negsuc a) (pos b) = no (λ e. cc)
ℤ_discrete (negsuc a) (negsuc b) = elim (ℕ_discrete a b) [
  | yes p ↦ yes (cc)
  | no p ↦ no (λ e. p (cc))
]

abbrev pub same_int : ℤ → ℤ → Bool
same_int a b = elim (ℤ_discrete a b) [ yes _ ↦ true | no _ ↦ false ]
