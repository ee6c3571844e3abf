-- ===== src/Model/Normalize/Canonical.antt =====
-- The normal form of a state as internal/model/state.go makes it: what it forgets.
use terminal_redeemer.Base.{
  Bool, List, [], ◌∷◌, map, Option, none, some, text_ltb, sort_by, insert_by, ◌≡◌, refl, sym, ap,
  ◌∙◌, arith, IsOrder, by_key-IsOrder, text-IsOrder, sort_by-sort_by, AllApart, Rearranged,
  sort_by-Rearranged,
}
use mathlib.Core.Path.{ap₂}
use terminal_redeemer.Model.{
  Terminal, Window, State, RecoveryInventory, workspace_before, window_before,
}
use terminal_redeemer.Model.Normalize.{
  on_some, normalize_terminal, normalize_window, normalize, session_before, normalize_recovery,
  without_title, hashed_state,
}

workspace_before-IsOrder : IsOrder workspace_before
unfolding workspace_before
workspace_before-IsOrder = record {
  asymmetric = λ a b h. ground (arith, text-IsOrder.asymmetric a.id b.id);
  transitive = λ a b c h k. ground (arith, text-IsOrder.transitive a.id b.id c.id);
}

window_before-IsOrder : IsOrder window_before
unfolding window_before
window_before-IsOrder = by_key-IsOrder (λ w. w.key)

-- A change of the elements that the order does not see.
module _ {A : Type 0} (less : A → A → Bool) (f : A → A)
    (blind : (a b : A) → less (f a) (f b) ≡ less a b) where
  map-insert_by : (x : A) (l : List A) → map f (insert_by less x l) ≡ insert_by less (f x) (map f l)
  unfolding insert_by
  map-insert_by x [] = refl
  map-insert_by x (y ∷ l) = ground (arith, blind y x, map-insert_by x l)

  pub map-sort_by : (l : List A) → map f (sort_by less l) ≡ sort_by less (map f l)
  unfolding sort_by
  map-sort_by [] = refl
  map-sort_by (x ∷ l) = map-insert_by x (sort_by less l) ∙ ap (insert_by less (f x)) (map-sort_by l)

map-map_of :
    {A : Type 0} (f g : A → A) (l : List A) → ((a : A) → f (g a) ≡ g a) → map f (map g l) ≡ map g l
map-map_of f g [] h = refl
map-map_of f g (a ∷ l) h = ap₂ (λ x y. x ∷ y) (h a) (map-map_of f g l h)

normalize_terminal_again :
    (t : Terminal) → normalize_terminal (normalize_terminal t) ≡ normalize_terminal t
unfolding normalize_terminal
normalize_terminal_again t =
    ap (λ tags. record t { process_tags = tags })
      (sort_by-sort_by text_ltb text-IsOrder t.process_tags)

on_some_again :
    {A : Type 0} (f : A → A) (o : Option A)
    → ((a : A) → f (f a) ≡ f a)
    → on_some f (on_some f o) ≡ on_some f o
on_some_again f none h = refl
on_some_again f (some a) h = ap some (h a)

normalize_window_again : (w : Window) → normalize_window (normalize_window w) ≡ normalize_window w
unfolding normalize_window
normalize_window_again w =
    ap (λ t. record w { terminal = t })
      (on_some_again normalize_terminal w.terminal normalize_terminal_again)

map-sort_windows :
    (l : List Window)
    → map normalize_window (sort_by window_before l)
      ≡ sort_by window_before (map normalize_window l)
unfolding window_before normalize_window
map-sort_windows l = map-sort_by window_before normalize_window (λ a b. refl) l

-- The normal form is its own normal form.
pub normalize-normalize : (s : State) → normalize (normalize s) ≡ normalize s
unfolding normalize
normalize-normalize s =
    ap₂ (λ x y. record { workspaces = x; windows = y })
      (sort_by-sort_by workspace_before workspace_before-IsOrder s.workspaces)
      (ap (map normalize_window) (
          ap (sort_by window_before) (map-sort_windows s.windows)
          ∙ sort_by-sort_by window_before window_before-IsOrder (map normalize_window s.windows)
          ∙ sym (map-sort_windows s.windows))
        ∙ map-map_of normalize_window normalize_window (sort_by window_before s.windows)
            normalize_window_again)

pub normalize_recovery-normalize_recovery :
    (r : RecoveryInventory) → normalize_recovery (normalize_recovery r) ≡ normalize_recovery r
unfolding normalize_recovery session_before
normalize_recovery-normalize_recovery r =
    ap₂ (λ x y. record { active_sessions = x; sessions = y })
      (sort_by-sort_by text_ltb text-IsOrder r.active_sessions)
      (sort_by-sort_by session_before (by_key-IsOrder (λ s. s.name)) r.sessions)

-- Two states that hold the same but for titles, in any order.
pub record SameContent (s t : State) : Type 0 where
  pub workspaces : Rearranged s.workspaces t.workspaces
  pub windows : Rearranged (map without_title s.windows) (map without_title t.windows)
  pub workspaces_apart : AllApart workspace_before s.workspaces
  pub windows_apart : AllApart window_before (map without_title s.windows)

map-without_title :
    (l : List Window)
    → map without_title (map normalize_window (sort_by window_before l))
      ≡ map normalize_window (sort_by window_before (map without_title l))
unfolding window_before normalize_window
map-without_title l =
    swapped (sort_by window_before l)
    ∙ ap (map normalize_window) (map-sort_by window_before without_title (λ a b. refl) l)
  where
    swapped :
        (k : List Window)
        → map without_title (map normalize_window k) ≡ map normalize_window (map without_title k)
    swapped [] = refl
    swapped (w ∷ k) = ap (λ r. without_title (normalize_window w) ∷ r) (swapped k)

-- What is hashed of a state does not depend on the order of its windows and workspaces, where these
-- can be told apart, nor on any title.
pub hashed_state-SameContent : (s t : State) → SameContent s t → hashed_state s ≡ hashed_state t
unfolding hashed_state normalize
hashed_state-SameContent s t c =
    ap₂ (λ x y. record { workspaces = x; windows = y })
      (sort_by-Rearranged workspace_before workspace_before-IsOrder c.workspaces c.workspaces_apart)
      (map-without_title s.windows
        ∙ ap (map normalize_window)
            (sort_by-Rearranged window_before window_before-IsOrder c.windows c.windows_apart)
        ∙ sym (map-without_title t.windows))
