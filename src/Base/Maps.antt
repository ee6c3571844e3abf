-- ===== src/Base/Maps.antt =====
-- Go maps with string keys, as association lists without repeated keys.
use mathlib.Core.Path.{◌≡◌, refl}
use mathlib.Core.Logic.{◌≢◌}
use mathlib.Core.List.{List, [], ◌∷◌}
use mathlib.Core.Option.{Option, none, some}
use native.Mathlib.Omega.{arith}
use terminal_redeemer.Base.Tests.{if◌then◌else◌}
use terminal_redeemer.Base.Texts.{Text, same}

abbrev pub Map {ℓ} : Type ℓ → Type ℓ
Map V = List (Text × V)

module _ {ℓ} {V : Type ℓ} where
  unfoldable pub get : Text → Map V → Option V
  get k [] = none
  get k ((j, v) ∷ m) = if same j k then some v else get k m

  unfoldable pub put : Text → V → Map V → Map V
  put k v [] = (k, v) ∷ []
  put k v ((j, w) ∷ m) = if same j k then (k, v) ∷ m else (j, w) ∷ put k v m

  unfoldable pub del : Text → Map V → Map V
  del k [] = []
  del k ((j, w) ∷ m) = if same j k then m else (j, w) ∷ del k m

  -- A loop over the entries that gives each value anew.
  unfoldable pub map_entries : (Text → V → V) → Map V → Map V
  map_entries f [] = []
  map_entries f ((j, w) ∷ m) = (j, f j w) ∷ map_entries f m

  pub get-put :
      (k j : Text) (v : V) (m : Map V) → get j (put k v m) ≡ (if same k j then some v else get j m)
  unfolding get put
  get-put k j v [] = refl
  get-put k j v ((i, w) ∷ m) = ground (arith, get-put k j v m)

  pub get-put_same : (k j : Text) (v : V) (m : Map V) → k ≡ j → get j (put k v m) ≡ some v
  get-put_same k j v m h = ground (arith, get-put k j v m)

  pub get-put_ne : (k j : Text) (v : V) (m : Map V) → k ≢ j → get j (put k v m) ≡ get j m
  get-put_ne k j v m h = ground (arith, get-put k j v m)

  pub get_unique :
      (k j : Text) (m : Map V) (a b : V) → k ≡ j → get k m ≡ some a → get j m ≡ some b → a ≡ b
  get_unique k j m a b h p q = cc

  -- What a loop makes of a looked-up value.
  abbrev pub changed : (Text → V → V) → Text → Option V → Option V
  changed f k none = none
  changed f k (some v) = some (f k v)

  pub get-map_entries :
      (f : Text → V → V) (k : Text) (m : Map V) → get k (map_entries f m) ≡ changed f k (get k m)
  unfolding get map_entries
  get-map_entries f k [] = refl
  get-map_entries f k ((i, w) ∷ m) = ground (arith, get-map_entries f k m)

  pub get-del_ne : (k j : Text) (m : Map V) → k ≢ j → get j (del k m) ≡ get j m
  unfolding get del
  get-del_ne k j [] h = refl
  get-del_ne k j ((i, w) ∷ m) h = ground (arith, get-del_ne k j m)
