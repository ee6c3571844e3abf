-- ===== src/Base/Tally.antt =====
-- How many entries of a map have a value that passes a test.
use Prim.Native.Nat.{ℕ, ◌+◌, ◌≤◌}
use mathlib.Core.Path.{◌≡◌, refl}
use mathlib.Core.Bool.{Bool, true, false, ◌&&◌}
use mathlib.Core.List.{[], ◌∷◌}
use mathlib.Core.Option.{none, some}
use native.Mathlib.Omega.{arith}
use terminal_redeemer.Base.Texts.{Text}
use terminal_redeemer.Base.Maps.{Map, get, put, del, map_entries}

abbrev pub bit : Bool → ℕ
bit true = 1
bit false = 0

pub bit-le : (a b : Bool) → (a ≡ true → b ≡ true) → bit a ≤ bit b
bit-le true b h = rw (h refl) (omega arith)
bit-le false b h = omega arith

pub bit-le_and : (a b c : Bool) → (a ≡ true → b ≡ true) → bit (a && c) ≤ bit (b && c)
bit-le_and true b c h = rw (h refl) (omega arith)
bit-le_and false b c h = omega arith

pub bit-le_one : (b : Bool) → bit b ≤ 1
bit-le_one true = omega arith
bit-le_one false = omega arith

pub bit_of_false : (a b : Bool) → b ≡ false → bit (a && b) ≡ 0
bit_of_false true b e = rw e
bit_of_false false b e = refl

pub and_mono : (a b c d : Bool) → (a ≡ true → b ≡ true) → c ≡ d → (a && c) ≡ true → (b && d) ≡ true
and_mono true b c d h e k = rw (h refl, ← e) k
and_mono false b c d h e k = cc

module _ {ℓ} {V : Type ℓ} where
  unfoldable pub tally : (V → Bool) → Map V → ℕ
  tally p [] = 0
  tally p ((k, v) ∷ m) = bit (p v) + tally p m

  pub tally-nil : (p : V → Bool) → tally p [] ≡ 0
  unfolding tally
  tally-nil p = refl

  pub tally-cons :
      (p : V → Bool) (k : Text) (v : V) (m : Map V) → tally p ((k, v) ∷ m) ≡ bit (p v) + tally p m
  unfolding tally
  tally-cons p k v m = refl

  pub tally-put_old :
      (p : V → Bool) (k : Text) (v w : V) (m : Map V)
      → get k m ≡ some v
      → tally p (put k w m) + bit (p v) ≡ tally p m + bit (p w)
  unfolding tally get put
  tally-put_old p k v w [] e = absurd (cc)
  tally-put_old p k v w ((j, u) ∷ m) e = ground (arith, tally-put_old p k v w m)

  pub tally-put_new :
      (p : V → Bool) (k : Text) (w : V) (m : Map V)
      → get k m ≡ none
      → tally p (put k w m) ≡ tally p m + bit (p w)
  unfolding tally get put
  tally-put_new p k w [] e = omega arith
  tally-put_new p k w ((j, u) ∷ m) e = ground (arith, tally-put_new p k w m)

  pub tally-del : (p : V → Bool) (k : Text) (m : Map V) → tally p (del k m) ≤ tally p m
  unfolding tally del
  tally-del p k [] = omega arith
  tally-del p k ((j, u) ∷ m) = ground (arith, tally-del p k m)

  pub tally-map_entries :
      (p : V → Bool) (f : Text → V → V) (m : Map V)
      → ((k : Text) (v : V) → p (f k v) ≡ true → p v ≡ true)
      → tally p (map_entries f m) ≤ tally p m
  unfolding tally map_entries
  tally-map_entries p f [] h = omega arith
  tally-map_entries p f ((j, u) ∷ m) h =
      omega (arith, bit-le (p (f j u)) (p u) (h j u), tally-map_entries p f m h)
