-- ===== src/Base/Sorting.antt =====
-- `sort.SliceStable`: insertion keeps the order of equal elements. What a search finds in the sorted
-- list, and in the list.
use mathlib.Core.Path.{◌≡◌, refl, sym, subst}
use mathlib.Core.Logic.{◌⊎◌, inl, inr}
use mathlib.Core.Bool.{Bool, true, false, ◌||◌}
use mathlib.Core.List.{List, [], ◌∷◌}
use mathlib.Core.Option.{none, some}
use native.Mathlib.Omega.{arith}
use terminal_redeemer.Base.Tests.{if◌then◌else◌, by_test}
use terminal_redeemer.Base.Lists.{All, any, first}

module _ {ℓ} {A : Type ℓ} where
  unfoldable pub insert_by : (A → A → Bool) → A → List A → List A
  insert_by less x [] = x ∷ []
  insert_by less x (y ∷ ys) = if less y x then y ∷ insert_by less x ys else x ∷ y ∷ ys

  unfoldable pub sort_by : (A → A → Bool) → List A → List A
  unfolding insert_by
  sort_by less [] = []
  sort_by less (x ∷ xs) = insert_by less x (sort_by less xs)

  pub any-insert_by :
      (p : A → Bool) (less : A → A → Bool) (x : A) (xs : List A)
      → any p (insert_by less x xs) ≡ (p x || any p xs)
  unfolding any insert_by
  any-insert_by p less x [] = refl
  any-insert_by p less x (y ∷ ys) = ground (arith, any-insert_by p less x ys)

  pub any-sort_by :
      (p : A → Bool) (less : A → A → Bool) (xs : List A) → any p (sort_by less xs) ≡ any p xs
  unfolding any sort_by
  any-sort_by p less [] = refl
  any-sort_by p less (x ∷ xs) =
      ground (arith, any-insert_by p less x (sort_by less xs), any-sort_by p less xs)

-- The element is in the list.
abbrev pub In : {A : Type 0} → A → List A → Type 0
In a [] = ⊥
In a (x ∷ xs) = (a ≡ x) ⊎ In a xs

module _ {κ} {A : Type 0} (P : A → Type κ) where
  All-insert_by :
      (less : A → A → Bool) (x : A) (xs : List A) → P x → All P xs → All P (insert_by less x xs)
  unfolding insert_by
  All-insert_by less x [] p h = (p, tt)
  All-insert_by less x (y ∷ ys) p h =
      by_test (All P) (less y x) (y ∷ insert_by less x ys) (x ∷ y ∷ ys)
        (λ _. (h.0, All-insert_by less x ys p h.1)) (λ _. (p, h))

  pub All-sort_by : (less : A → A → Bool) (xs : List A) → All P xs → All P (sort_by less xs)
  unfolding sort_by
  All-sort_by less [] h = tt
  All-sort_by less (x ∷ xs) h = All-insert_by less x (sort_by less xs) h.0 (All-sort_by less xs h.1)

  insert_by-All :
      (less : A → A → Bool) (x : A) (xs : List A) → All P (insert_by less x xs) → P x × All P xs
  unfolding insert_by
  insert_by-All less x [] h = (h.0, tt)
  insert_by-All less x (y ∷ ys) h =
      by_test (λ l. All P l → P x × (P y × All P ys)) (less y x) (y ∷ insert_by less x ys)
        (x ∷ y ∷ ys) (λ _ h. let r = insert_by-All less x ys h.1 in (r.0, (h.0, r.1)))
        (λ _ h. (h.0, h.1)) h

  pub sort_by-All : (less : A → A → Bool) (xs : List A) → All P (sort_by less xs) → All P xs
  unfolding sort_by
  sort_by-All less [] h = tt
  sort_by-All less (x ∷ xs) h =
      let r = insert_by-All less x (sort_by less xs) h in (r.0, sort_by-All less xs r.1)

  pub All-In : (a : A) (xs : List A) → All P xs → In a xs → P a
  All-In a (x ∷ xs) h (inl e) = subst P (sym e) h.0
  All-In a (x ∷ xs) h (inr m) = All-In a xs h.1 m
  All-In a [] h m = absurd m

  pub In-All : (xs : List A) → ((a : A) → In a xs → P a) → All P xs
  In-All [] f = tt
  In-All (x ∷ xs) f = (f x (inl refl), In-All xs (λ a m. f a (inr m)))

module _ {A : Type 0} where
  pub In-sort_by : (less : A → A → Bool) (a : A) (xs : List A) → In a (sort_by less xs) → In a xs
  In-sort_by less a xs m =
      All-In (λ x. In x xs) a (sort_by less xs)
        (All-sort_by (λ x. In x xs) less xs (In-All (λ x. In x xs) xs (λ x h. h))) m

  -- What a search finds passes the test and is in the list.
  pub first-some :
      (p : A → Bool) (xs : List A) (a : A) → first p xs ≡ some a → (p a ≡ true) × In a xs
  unfolding first
  first-some p [] a e = cc
  first-some p (x ∷ xs) a e =
      by_test (λ o. o ≡ some a → (p a ≡ true) × In a (x ∷ xs)) (p x) (some x) (first p xs)
        (λ t e. let q : x ≡ a = ground arith in (subst (λ y. p y ≡ true) q t, inl (sym q)))
        (λ _ e. let r = first-some p xs a e in (r.0, inr r.1)) e

  -- A search that finds nothing: no element passes the test.
  pub first-none : (p : A → Bool) (xs : List A) → first p xs ≡ none → All (λ x. p x ≡ false) xs
  unfolding first
  first-none p [] e = tt
  first-none p (x ∷ xs) e =
      by_test (λ o. o ≡ none → (p x ≡ false) × All (λ y. p y ≡ false) xs) (p x) (some x)
        (first p xs) (λ t e. cc) (λ f e. (f, first-none p xs e)) e
