-- ===== src/Base/Sorted.antt =====
-- Sorted lists: sorting them again changes nothing, and lists with the same elements sort to the same.
use mathlib.Core.Path.{◌≡◌, refl, ap, ◌∙◌}
use mathlib.Core.Logic.{◌⊎◌, inl, inr}
use mathlib.Core.Bool.{Bool, true, false}
use mathlib.Core.List.{List, [], ◌∷◌}
use native.Mathlib.Omega.{arith}
use terminal_redeemer.Base.Tests.{if◌then◌else◌, by_test}
use terminal_redeemer.Base.Texts.{Text, text_ltb}
use terminal_redeemer.Base.Lists.{All}
use terminal_redeemer.Base.Sorting.{insert_by, sort_by}

-- What sorting needs of "less": it is a strict order whose complement is transitive.
pub record IsOrder {ℓ} {A : Type ℓ} (less : A → A → Bool) : Type ℓ where
  pub asymmetric : (a b : A) → less a b ≡ true → less b a ≡ false
  pub transitive : (a b c : A) → less b a ≡ false → less c b ≡ false → less c a ≡ false

module _ {ℓ} {A : Type ℓ} (less : A → A → Bool) where
  -- No element comes right after a greater one.
  abbrev pub Ascending : List A → Type 0
  Ascending [] = Unit
  Ascending (x ∷ []) = Unit
  Ascending (x ∷ y ∷ l) = (less y x ≡ false) × Ascending (y ∷ l)

  Ascending-insert_by :
      IsOrder less → (x : A) (l : List A) → Ascending l → Ascending (insert_by less x l)
  unfolding insert_by
  Ascending-insert_by o x [] h = tt
  Ascending-insert_by o x (y ∷ []) h =
      by_test Ascending (less y x) _ _ (λ e. (o.asymmetric y x e, tt)) (λ e. (e, tt))
  Ascending-insert_by o x (y ∷ z ∷ l) h =
      by_test Ascending (less y x) _ _
        (λ e. below (less z x) e (Ascending-insert_by o x (z ∷ l) h.1)) (λ e. (e, h))
    where
      below :
          (b : Bool)
          → less y x ≡ true
          → Ascending (if b then z ∷ insert_by less x l else x ∷ z ∷ l)
          → Ascending (y ∷ (if b then z ∷ insert_by less x l else x ∷ z ∷ l))
      below true e k = (h.0, k)
      below false e k = (o.asymmetric y x e, k)

  pub Ascending-sort_by : IsOrder less → (l : List A) → Ascending (sort_by less l)
  unfolding sort_by
  Ascending-sort_by o [] = tt
  Ascending-sort_by o (x ∷ l) = Ascending-insert_by o x (sort_by less l) (Ascending-sort_by o l)

  tail-Ascending : (x : A) (l : List A) → Ascending (x ∷ l) → Ascending l
  tail-Ascending x [] h = tt
  tail-Ascending x (y ∷ l) h = h.1

  insert_by-Ascending : (x : A) (l : List A) → Ascending (x ∷ l) → insert_by less x l ≡ x ∷ l
  unfolding insert_by
  insert_by-Ascending x [] h = refl
  insert_by-Ascending x (y ∷ l) h =
      by_test (λ k. k ≡ x ∷ y ∷ l) (less y x) _ _ (λ e. absurd (clash (less y x) e h.0)) (λ _. refl)
    where
      clash : (b : Bool) → b ≡ true → b ≡ false → ⊥
      clash b t f = cc

  sort_by-Ascending : (l : List A) → Ascending l → sort_by less l ≡ l
  unfolding sort_by
  sort_by-Ascending [] h = refl
  sort_by-Ascending (x ∷ l) h =
      ap (insert_by less x) (sort_by-Ascending l (tail-Ascending x l h)) ∙ insert_by-Ascending x l h

  pub sort_by-sort_by : IsOrder less → (l : List A) → sort_by less (sort_by less l) ≡ sort_by less l
  sort_by-sort_by o l = sort_by-Ascending (sort_by less l) (Ascending-sort_by o l)

  -- One of two elements is less than the other.
  abbrev pub Apart : A → A → Type 0
  Apart a b = (less a b ≡ true) ⊎ (less b a ≡ true)

  insert_by_comm :
      IsOrder less
      → (a b : A) (l : List A) → Apart a b
      → insert_by less a (insert_by less b l) ≡ insert_by less b (insert_by less a l)
  unfolding insert_by
  insert_by_comm o a b [] p = ground (arith, o.asymmetric a b, o.asymmetric b a)
  insert_by_comm o a b (z ∷ l) p = ground (
    arith,
    o.asymmetric a b,
    o.asymmetric b a,
    o.asymmetric z a,
    o.asymmetric z b,
    o.transitive a b z,
    o.transitive b a z,
    o.transitive a z b,
    o.transitive b z a,
    insert_by_comm o a b l p,
  )

-- The same elements in another order.
pub data Rearranged {ℓ} {A : Type ℓ} : List A → List A → Type ℓ where
  done : Rearranged [] []
  skip : (x : A) {l k : List A} → Rearranged l k → Rearranged (x ∷ l) (x ∷ k)
  swap : (x y : A) (l : List A) → Rearranged (x ∷ y ∷ l) (y ∷ x ∷ l)
  chain : {l k m : List A} → Rearranged l k → Rearranged k m → Rearranged l m

module _ {ℓ} {A : Type ℓ} (less : A → A → Bool) where
  -- Any two elements are apart.
  abbrev pub AllApart : List A → Type ℓ
  AllApart [] = Unit
  AllApart (x ∷ l) = All (Apart less x) l × AllApart l

  either_way : {a b : A} → Apart less a b → Apart less b a
  either_way (inl e) = inr e
  either_way (inr e) = inl e

  All-Rearranged : (P : A → Type 0) {l k : List A} → Rearranged l k → All P l → All P k
  All-Rearranged P done h = h
  All-Rearranged P (skip x r) h = (h.0, All-Rearranged P r h.1)
  All-Rearranged P (swap x y l) h = (h.1.0, (h.0, h.1.1))
  All-Rearranged P (chain r q) h = All-Rearranged P q (All-Rearranged P r h)

  AllApart-Rearranged : {l k : List A} → Rearranged l k → AllApart l → AllApart k
  AllApart-Rearranged done h = h
  AllApart-Rearranged (skip x r) h =
      (All-Rearranged (Apart less x) r h.0, AllApart-Rearranged r h.1)
  AllApart-Rearranged (swap x y l) h = ((either_way h.0.0, h.1.0), (h.0.1, h.1.1))
  AllApart-Rearranged (chain r q) h = AllApart-Rearranged q (AllApart-Rearranged r h)

  pub sort_by-Rearranged :
      {l k : List A} → IsOrder less → Rearranged l k → AllApart l → sort_by less l ≡ sort_by less k
  unfolding sort_by
  sort_by-Rearranged o done h = refl
  sort_by-Rearranged o (skip x r) h = ap (insert_by less x) (sort_by-Rearranged o r h.1)
  sort_by-Rearranged o (swap x y l) h = insert_by_comm less o x y (sort_by less l) h.0.0
  sort_by-Rearranged o (chain r q) h =
      sort_by-Rearranged o r h ∙ sort_by-Rearranged o q (AllApart-Rearranged r h)

-- Byte strings in their lexicographic order.
text_ltb_asym : (a b : Text) → text_ltb a b ≡ true → text_ltb b a ≡ false
unfolding text_ltb
text_ltb_asym [] [] h = cc
text_ltb_asym [] (y ∷ b) h = refl
text_ltb_asym (x ∷ a) [] h = cc
text_ltb_asym (x ∷ a) (y ∷ b) h = ground (arith, text_ltb_asym a b)

text_ltb_trans : (a b c : Text) → text_ltb b a ≡ false → text_ltb c b ≡ false → text_ltb c a ≡ false
unfolding text_ltb
text_ltb_trans a [] [] h k = h
text_ltb_trans a (y ∷ b) [] h k = cc
text_ltb_trans [] b (z ∷ c) h k = refl
text_ltb_trans (x ∷ a) [] (z ∷ c) h k = cc
text_ltb_trans (x ∷ a) (y ∷ b) (z ∷ c) h k = ground (arith, text_ltb_trans a b c)

pub text_ltb_total : (a b : Text) → text_ltb a b ≡ false → text_ltb b a ≡ false → a ≡ b
unfolding text_ltb
text_ltb_total [] [] h k = refl
text_ltb_total [] (y ∷ b) h k = cc
text_ltb_total (x ∷ a) [] h k = cc
text_ltb_total (x ∷ a) (y ∷ b) h k = ground (arith, h, k, text_ltb_total a b)

-- The order of a key.
pub by_key-IsOrder : {A : Type 0} (key : A → Text) → IsOrder (λ (a b : A). text_ltb (key a) (key b))
by_key-IsOrder key = record {
  asymmetric = λ a b. text_ltb_asym (key a) (key b);
  transitive = λ a b c. text_ltb_trans (key a) (key b) (key c);
}

pub text-IsOrder : IsOrder text_ltb
text-IsOrder = by_key-IsOrder (λ t. t)
