-- ===== src/Model/Persisted.antt =====
-- The fields of internal/model/state.go that are not in its JSON, which a state that was stored and
-- read again lacks.
use terminal_redeemer.Base.{false, List, [], ◌∷◌, map, none, some, sort_by, ◌≡◌, refl, sym, ap, ◌∙◌}
use mathlib.Core.Path.{ap₂}
use terminal_redeemer.Model.{Terminal, Window, State, Checkpoint, window_before, workspace_before}
use terminal_redeemer.Model.Normalize.{
  on_some, normalize_terminal, normalize_window, normalize, without_title, hashed_state,
}
use terminal_redeemer.Model.Normalize.Canonical.{map-sort_by}

abbrev pub persisted_terminal : Terminal → Terminal
persisted_terminal t = record t { session_tag_exact = false }

abbrev pub persisted_window : Window → Window
persisted_window w = record w {
  is_focused = false;
  terminal = on_some persisted_terminal w.terminal;
}

abbrev pub persisted_state : State → State
persisted_state s = record s { windows = map persisted_window s.windows }

abbrev pub persisted : Checkpoint → Checkpoint
persisted c = record c { state = persisted_state c.state }

normalize_window-persisted_window :
    (w : Window) → normalize_window (persisted_window w) ≡ persisted_window (normalize_window w)
unfolding normalize_window normalize_terminal
normalize_window-persisted_window w =
    ap (λ t. record w { is_focused = false; terminal = t })
      (elim w.terminal
        as (λ o.
          on_some normalize_terminal (on_some persisted_terminal o)
          ≡ on_some persisted_terminal (on_some normalize_terminal o)) [
            | none ↦ refl
            | some t ↦ refl
          ])

map-swap :
    {A : Type 0} (f g : A → A) (l : List A)
    → ((a : A) → f (g a) ≡ g (f a))
    → map f (map g l) ≡ map g (map f l)
map-swap f g [] h = refl
map-swap f g (a ∷ l) h = ap₂ (λ x y. x ∷ y) (h a) (map-swap f g l h)

pub normalize-persisted_state :
    (s : State) → normalize (persisted_state s) ≡ persisted_state (normalize s)
unfolding normalize window_before
normalize-persisted_state s =
    ap (λ w. record { workspaces = sort_by workspace_before s.workspaces; windows = w })
      (ap (map normalize_window)
          (sym (map-sort_by window_before persisted_window (λ a b. refl) s.windows))
        ∙ map-swap normalize_window persisted_window (sort_by window_before s.windows)
            normalize_window-persisted_window)

pub hashed_state-persisted_state :
    (s : State) → hashed_state (persisted_state s) ≡ persisted_state (hashed_state s)
unfolding hashed_state
hashed_state-persisted_state s =
    ap (λ (n : State). record n { windows = map without_title n.windows })
      (normalize-persisted_state s)
    ∙ ap (λ w. record { workspaces = (normalize s).workspaces; windows = w })
        (map-swap without_title persisted_window (normalize s).windows (λ w. refl))
