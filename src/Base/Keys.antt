-- ===== src/Base/Keys.antt =====
-- Lists of texts as ordered sets, and the keys of a map.
use mathlib.Core.Path.{◌≡◌, refl, subst₂, ◌∙◌}
use mathlib.Core.Logic.{◌≢◌, inl, inr}
use mathlib.Core.Bool.{Bool, true, false, ◌||◌}
use mathlib.Core.List.{List, [], ◌∷◌, ◌++◌}
use mathlib.Core.Option.{none, some}
use native.Mathlib.Omega.{arith}
use terminal_redeemer.Base.Tests.{if◌then◌else◌, Bool-cases, by_test}
use terminal_redeemer.Base.Texts.{Text, same, text_discrete}
use terminal_redeemer.Base.Lists.{any}
use terminal_redeemer.Base.Sorting.{insert_by, sort_by, any-insert_by, any-sort_by}
use terminal_redeemer.Base.Maps.{Map, get, put, del, map_entries}

-- The text is in the list.
abbrev pub seen : Text → List Text → Bool
seen x = any (λ y. same y x)

abbrev pub Distinct : List Text → Type 0
Distinct [] = Unit
Distinct (x ∷ xs) = (seen x xs ≡ false) × Distinct xs

-- The list without the first copy of a text.
unfoldable pub remove_first : Text → List Text → List Text
remove_first x [] = []
remove_first x (y ∷ ys) = if same y x then ys else y ∷ remove_first x ys

pub seen-append : (x : Text) (ys zs : List Text) → seen x (ys ++ zs) ≡ (seen x ys || seen x zs)
unfolding any
seen-append x [] zs = refl
seen-append x (y ∷ ys) zs = ground (arith, seen-append x ys zs)

pub seen-rotate : (x y : Text) (ys : List Text) → seen x (ys ++ y ∷ []) ≡ seen x (y ∷ ys)
unfolding any
seen-rotate x y [] = refl
seen-rotate x y (z ∷ ys) = ground (arith, seen-rotate x y ys)

pub Distinct-snoc :
    (x : Text) (ys : List Text) → seen x ys ≡ false → Distinct ys → Distinct (ys ++ x ∷ [])
unfolding any
Distinct-snoc x [] h d = (refl, tt)
Distinct-snoc x (y ∷ ys) h d =
    (ground (arith, seen-rotate y x ys), Distinct-snoc x ys (ground arith) d.1)

pub seen-remove_first_ne :
    (x y : Text) (ys : List Text) → x ≢ y → seen y (remove_first x ys) ≡ seen y ys
unfolding any remove_first
seen-remove_first_ne x y [] h = refl
seen-remove_first_ne x y (z ∷ ys) h = ground (arith, seen-remove_first_ne x y ys)

pub seen-remove_first_self :
    (x : Text) (ys : List Text) → Distinct ys → seen x (remove_first x ys) ≡ false
unfolding any remove_first
seen-remove_first_self x [] d = refl
seen-remove_first_self x (z ∷ ys) d = ground (arith, seen-remove_first_self x ys d.1)

seen-remove_first_le :
    (x y : Text) (ys : List Text) → seen y ys ≡ false → seen y (remove_first x ys) ≡ false
unfolding any remove_first
seen-remove_first_le x y [] h = refl
seen-remove_first_le x y (z ∷ ys) h = ground (arith, seen-remove_first_le x y ys)

pub Distinct-remove_first : (x : Text) (ys : List Text) → Distinct ys → Distinct (remove_first x ys)
unfolding remove_first
Distinct-remove_first x [] d = tt
Distinct-remove_first x (y ∷ ys) d =
    ground (arith, seen-remove_first_le x y ys, Distinct-remove_first x ys d.1)

Distinct-insert_by :
    (less : Text → Text → Bool) (x : Text) (xs : List Text)
    → seen x xs ≡ false
    → Distinct xs
    → Distinct (insert_by less x xs)
unfolding insert_by any
Distinct-insert_by less x [] h d = (refl, tt)
Distinct-insert_by less x (y ∷ ys) h d =
    by_test Distinct (less y x) (y ∷ insert_by less x ys) (x ∷ y ∷ ys)
      (λ _. (
        ground (arith, any-insert_by (λ z. same z y) less x ys, d.0, h),
        Distinct-insert_by less x ys (ground (arith, h)) d.1,
      ))
      (λ _. (h, d))

pub Distinct-sort_by :
    (less : Text → Text → Bool) (xs : List Text) → Distinct xs → Distinct (sort_by less xs)
unfolding sort_by
Distinct-sort_by less [] d = tt
Distinct-sort_by less (x ∷ xs) d =
    Distinct-insert_by less x (sort_by less xs) (any-sort_by (λ z. same z x) less xs ∙ d.0)
      (Distinct-sort_by less xs d.1)

module _ {ℓ} {V : Type ℓ} where
  unfoldable pub keys : Map V → List Text
  keys [] = []
  keys ((k, v) ∷ m) = k ∷ keys m

  pub keys-map_entries : (f : Text → V → V) (m : Map V) → keys (map_entries f m) ≡ keys m
  unfolding keys map_entries
  keys-map_entries f [] = refl
  keys-map_entries f ((k, v) ∷ m) = rw (keys-map_entries f m)

  pub keys-del : (k : Text) (m : Map V) → keys (del k m) ≡ remove_first k (keys m)
  unfolding keys del remove_first
  keys-del k [] = refl
  keys-del k ((j, v) ∷ m) = ground (arith, keys-del k m)

  pub keys-put_old :
      (k : Text) (v : V) (m : Map V) → seen k (keys m) ≡ true → keys (put k v m) ≡ keys m
  unfolding keys put any
  keys-put_old k v [] h = cc
  keys-put_old k v ((j, w) ∷ m) h = ground (arith, keys-put_old k v m)

  pub keys-put_new :
      (k : Text) (v : V) (m : Map V) → seen k (keys m) ≡ false → keys (put k v m) ≡ keys m ++ k ∷ []
  unfolding keys put any
  keys-put_new k v [] h = refl
  keys-put_new k v ((j, w) ∷ m) h = ground (arith, keys-put_new k v m)

  pub seen-put :
      (j k : Text) (v : V) (m : Map V) → seen j (keys m) ≡ true → seen j (keys (put k v m)) ≡ true
  unfolding keys put any
  seen-put j k v [] h = cc
  seen-put j k v ((i, w) ∷ m) h = ground (arith, seen-put j k v m)

  pub seen-put_self : (k : Text) (v : V) (m : Map V) → seen k (keys (put k v m)) ≡ true
  unfolding keys put any
  seen-put_self k v [] = ground arith
  seen-put_self k v ((i, w) ∷ m) = ground (arith, seen-put_self k v m)

  pub get-seen : (k : Text) (m : Map V) → seen k (keys m) ≡ true → (v : V) × (get k m ≡ some v)
  unfolding keys get any
  get-seen k [] h = absurd (cc)
  get-seen k ((j, w) ∷ m) h = elim (text_discrete j k) [
    | yes p ↦ (w, ground arith)
    | no p ↦ let (v, e) = get-seen k m (ground arith) in (v, ground arith)
  ]

  pub seen-get : (k : Text) (m : Map V) (v : V) → get k m ≡ some v → seen k (keys m) ≡ true
  unfolding keys get any
  seen-get k [] v h = cc
  seen-get k ((j, w) ∷ m) v h = ground (arith, seen-get k m v)

  pub unseen-get : (k : Text) (m : Map V) → get k m ≡ none → seen k (keys m) ≡ false
  unfolding keys get any
  unseen-get k [] h = refl
  unseen-get k ((j, w) ∷ m) h = ground (arith, unseen-get k m)

  hit : (j k : Text) (w v : V) (m : Map V) → j ≡ k → get k ((j, w) ∷ m) ≡ some v → w ≡ v
  unfolding get
  hit j k w v m p e = ground arith

  -- A predicate of every entry.
  abbrev pub Each {κ} : (Text → V → Type κ) → Map V → Type κ
  Each P [] = Unit
  Each P ((k, v) ∷ m) = P k v × Each P m

module _ {ℓ κ} {V : Type ℓ} (P : Text → V → Type κ) where
  pub Each-get : (k : Text) (m : Map V) {v : V} → Each P m → get k m ≡ some v → P k v
  unfolding get
  Each-get k [] h e = absurd (cc)
  Each-get k ((j, w) ∷ m) {v = v} h e = elim (text_discrete j k) [
    | yes p ↦ subst₂ P p (hit j k w v m p e) h.0
    | no p ↦ Each-get k m h.1 (ground arith)
  ]

  pub Each-put : (k : Text) (v : V) (m : Map V) → Each P m → P k v → Each P (put k v m)
  unfolding put
  Each-put k v [] h p = (p, tt)
  Each-put k v ((j, w) ∷ m) h p = elim (Bool-cases (same j k)) [
    | inl q ↦ rw q (p, h.1)
    | inr q ↦ rw q (h.0, Each-put k v m h.1 p)
  ]

  pub Each-del : (k : Text) (m : Map V) → Each P m → Each P (del k m)
  unfolding del
  Each-del k [] h = tt
  Each-del k ((j, w) ∷ m) h = elim (Bool-cases (same j k)) [
    | inl q ↦ rw q h.1
    | inr q ↦ rw q (h.0, Each-del k m h.1)
  ]

  pub Each-map_entries :
      (f : Text → V → V) (m : Map V)
      → ((k : Text) (v : V) → P k v → P k (f k v))
      → Each P m
      → Each P (map_entries f m)
  unfolding map_entries
  Each-map_entries f [] g h = tt
  Each-map_entries f ((j, w) ∷ m) g h = (g j w h.0, Each-map_entries f m g h.1)

pub Each-mono {ℓ κ} :
    {V : Type ℓ} (P Q : Text → V → Type κ) (m : Map V)
    → ((k : Text) (v : V) → P k v → Q k v)
    → Each P m
    → Each Q m
Each-mono P Q [] f h = tt
Each-mono P Q ((k, v) ∷ m) f h = (f k v h.0, Each-mono P Q m f h.1)
