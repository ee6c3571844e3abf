-- ===== src/Resume/Plan/Launches.antt =====
-- What a plan launches: the sessions of the items that are ready, or degraded to the current workspace.
use terminal_redeemer.Base.{
  ◌≡◌, refl, ◌∙◌, ◌≢◌, Bool, true, false, not, ◌&&◌, ◌||◌, List, [], ◌∷◌, Option, none, some, Text,
  same, if◌then◌else◌, any, seen, keep, sort_by, any-keep, any-sort_by, get, get-put, Map, arith,
}
use terminal_redeemer.Model.{Window, State, window_before}
use terminal_redeemer.Resume.Selection.{is_terminal, terminal_windows}
use terminal_redeemer.Resume.Plan.{Scene, unresolved_item, open_item, launch_item, decide, noted}
use terminal_redeemer.Resume.Items.{
  Status, ready, degraded, UnresolvedWorkspacePolicy, current, Item, new_item, session_of,
  note_open, open_from, current_session_windows,
}

abbrev pub is_launch : Status → Bool
is_launch ready = true
is_launch degraded = true
is_launch _ = false

unfoldable pub launches : List Item → List Text
launches [] = []
launches (i ∷ is) = if is_launch i.status then i.session ∷ launches is else launches is

-- A terminal window of the state runs the session.
abbrev pub shown_by : Text → Window → Bool
shown_by s w = is_terminal w.app_id && same (session_of w.terminal) s

abbrev pub shown_in : Text → State → Bool
shown_in s state = any (shown_by s) state.windows

abbrev pub is_some {ℓ} : {A : Type ℓ} → Option A → Bool
is_some none = false
is_some (some _) = true

note_open_lem :
    (s : Text) (out : Map Window) (w : Window)
    → s ≢ []
    → is_some (get s (note_open out w)) ≡ (is_some (get s out) || shown_by s w)
unfolding note_open
note_open_lem s out w h = ground (arith, get-put (session_of w.terminal) s w out)

open_from_lem :
    (s : Text) (out : Map Window) (ws : List Window)
    → s ≢ []
    → is_some (get s (open_from out ws)) ≡ (is_some (get s out) || any (shown_by s) ws)
unfolding open_from any
open_from_lem s out [] h = ground arith
open_from_lem s out (w ∷ ws) h =
    ground (arith, open_from_lem s (note_open out w) ws h, note_open_lem s out w h)

-- A session is open exactly if a terminal window of the current state runs it.
pub current_session_windows_lem :
    (s : Text) (state : State)
    → s ≢ []
    → is_some (get s (current_session_windows state)) ≡ shown_in s state
unfolding current_session_windows get
current_session_windows_lem s state h =
    open_from_lem s [] (sort_by window_before state.windows) h
    ∙ any-sort_by (shown_by s) window_before state.windows

-- A captured terminal window runs the session.
pub terminal_windows_lem :
    (s : Text) (state : State)
    → any (λ w. same (session_of w.terminal) s) (terminal_windows state) ≡ shown_in s state
unfolding terminal_windows
terminal_windows_lem s state =
    any-sort_by (λ w. same (session_of w.terminal) s) window_before
      (keep (λ w. is_terminal w.app_id) state.windows)
    ∙ any-keep (λ w. same (session_of w.terminal) s) (λ w. is_terminal w.app_id) state.windows

-- The session can be launched, whatever came before.
abbrev pub is_free : Scene → Text → Bool
is_free scene s =
    not (same s []) && not (is_some (get s scene.open_windows)) && seen s scene.available

launch_item-session : (scene : Scene) (i : Item) → (launch_item scene i).session ≡ i.session
unfolding launch_item unresolved_item
launch_item-session scene i = ground arith

pub decide-session :
    (scene : Scene) (before : List Text) (i : Item) → (decide scene before i).session ≡ i.session
unfolding decide open_item
decide-session scene before i = ground (arith, launch_item-session scene i)

unresolved_item-launch :
    (p : UnresolvedWorkspacePolicy) (i : Item)
    → p ≡ current
    → is_launch (unresolved_item p i).status ≡ true
unfolding unresolved_item
unresolved_item-launch p i h = ground arith

-- Before its status is decided, an item launches nothing; then it does only if its session is
-- available, and under the policy of the current workspace if it is.
launch_item_sound :
    (scene : Scene) (i : Item)
    → is_launch (launch_item scene i).status ≡ true
    → seen i.session scene.available ≡ true
unfolding launch_item
launch_item_sound scene i h = ground arith

launch_item_complete :
    (scene : Scene) (i : Item)
    → scene.policy ≡ current
    → seen i.session scene.available ≡ true
    → is_launch (launch_item scene i).status ≡ true
unfolding launch_item
launch_item_complete scene i p h = ground (arith, unresolved_item-launch scene.policy i p)

pub decide_sound :
    (scene : Scene) (before : List Text) (i : Item)
    → is_launch (decide scene before i).status ≡ true
    → (is_free scene i.session ≡ true) × (seen i.session before ≡ false)
unfolding decide open_item
decide_sound scene before i h = ground (arith, launch_item_sound scene i)

pub decide_complete :
    (scene : Scene) (before : List Text) (i : Item)
    → scene.policy ≡ current
    → is_free scene i.session ≡ true
    → seen i.session before ≡ false
    → is_launch (decide scene before i).status ≡ true
unfolding decide open_item
decide_complete scene before i p h k = ground (arith, launch_item_complete scene i p)

pub noted_lem :
    (s x : Text) (before : List Text)
    → s ≢ []
    → seen s (noted x before) ≡ (seen s before || same x s)
unfolding noted any
noted_lem s x before h = ground arith

pub new_item-session :
    (w : Window) (state : State) → (new_item w state).session ≡ session_of w.terminal
unfolding new_item
new_item-session w state = refl

abbrev pub runs : Text → List Window → Bool
runs s = any (λ w. same (session_of w.terminal) s)
