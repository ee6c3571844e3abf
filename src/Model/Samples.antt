-- ===== src/Model/Samples.antt =====
-- Two states that differ in the order of their windows and in a title; the theorem at them.
use terminal_redeemer.Base.{
  ◌≡◌, refl, inl, [], ◌∷◌, none, Text, codes, pos, false, text_ltb, done, swap,
}
use terminal_redeemer.Model.{Window, State, window_before}
use terminal_redeemer.Model.Normalize.{hashed_state}
use terminal_redeemer.Model.Normalize.Canonical.{SameContent, hashed_state-SameContent}

abbrev window : Text → Text → Window
window key title = record {
  key = key;
  app_id = codes "kitty";
  workspace_id = [];
  workspace_ref = none;
  pid = pos 0;
  title = title;
  is_focused = false;
  placement = none;
  terminal = none;
}

abbrev one : State
one = record {
  workspaces = [];
  windows = window (codes "a") (codes "vim") ∷ window (codes "b") [] ∷ [];
}

abbrev other : State
other = record {
  workspaces = [];
  windows = window (codes "b") [] ∷ window (codes "a") (codes "top") ∷ [];
}

one-SameContent : SameContent one other
unfolding window_before text_ltb
one-SameContent = record {
  workspaces = done;
  windows = swap (window (codes "a") []) (window (codes "b") []) [];
  workspaces_apart = tt;
  windows_apart = ((inl refl, tt), (tt, tt));
}

hashed_state-SameContent_example : hashed_state one ≡ hashed_state other
hashed_state-SameContent_example = hashed_state-SameContent one other one-SameContent
