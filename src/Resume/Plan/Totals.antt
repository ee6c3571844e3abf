-- ===== src/Resume/Plan/Totals.antt =====
-- The summary of a plan, `summarize` of internal/resume/planner.go.
use terminal_redeemer.Base.{
  ℕ, ◌+◌, ◌≡◌, ◌≢◌, ◌∙◌, List, [], ◌∷◌, Option, none, some, Text, length, All, arith,
}
use terminal_redeemer.Model.{Window, State, Checkpoint}
use terminal_redeemer.Resume.Selection.{CandidateStatus, Selection, terminal_windows}
use terminal_redeemer.Resume.Plan.{
  Scene, decide, open_item, launch_item, unresolved_item, noted, build_items, stale_items,
  plan_items, items_of, scene_of, Summary, no_items, count_status, count_items, summarize, build,
}
use terminal_redeemer.Resume.Items.{Status, undecided, UnresolvedWorkspacePolicy, Item, new_item}

abbrev pub total : Summary → ℕ
total n =
    n.ready + n.restored + n.already_open + n.unavailable + n.degraded + n.stale + n.failed
    + n.skipped

abbrev Decided : Item → Type 0
Decided i = i.status ≢ undecided

count_status-total :
    (s : Status) (n : Summary) → s ≢ undecided → total (count_status s n) ≡ total n + 1
unfolding count_status
count_status-total s n h = ground arith

count_items-total :
    (n : Summary) (items : List Item)
    → All Decided items
    → total (count_items n items) ≡ total n + length items
unfolding count_items
count_items-total n [] h = omega arith
count_items-total n (i ∷ is) h =
    omega
      (arith, count_items-total (count_status i.status n) is h.1, count_status-total i.status n h.0)

launch_item-Decided : (scene : Scene) (i : Item) → Decided (launch_item scene i)
unfolding launch_item unresolved_item
launch_item-Decided scene i e = ground arith

decide-Decided : (scene : Scene) (before : List Text) (i : Item) → Decided (decide scene before i)
unfolding decide open_item
decide-Decided scene before i e = ground (arith, launch_item-Decided scene i)

build_items-Decided :
    (scene : Scene) (before : List Text) (ws : List Window)
    → All Decided (build_items scene before ws)
unfolding build_items
build_items-Decided scene before [] = tt
build_items-Decided scene before (w ∷ ws) = (
  decide-Decided scene before (new_item w scene.captured),
  build_items-Decided scene (noted (new_item w scene.captured).session before) ws,
)

stale_items-Decided : (state : State) (ws : List Window) → All Decided (stale_items state ws)
unfolding stale_items
stale_items-Decided state [] = tt
stale_items-Decided state (w ∷ ws) = ((λ e. cc), stale_items-Decided state ws)

module _ (policy : UnresolvedWorkspacePolicy) (now : State) (sessions : List Text) where
  plan_items-Decided :
      (status : CandidateStatus) (c : Checkpoint)
      → All Decided (plan_items policy status c now sessions)
  unfolding plan_items
  plan_items-Decided CandidateStatus.empty c = tt
  plan_items-Decided CandidateStatus.stale c =
      stale_items-Decided c.state (terminal_windows c.state)
  plan_items-Decided CandidateStatus.ready c =
      build_items-Decided (scene_of policy c now sessions) [] (terminal_windows c.state)
  plan_items-Decided CandidateStatus.not_found c =
      build_items-Decided (scene_of policy c now sessions) [] (terminal_windows c.state)

  items_of-Decided :
      (selection : Selection) (x : Option Checkpoint)
      → All Decided (items_of policy selection x now sessions)
  unfolding items_of
  items_of-Decided selection none = tt
  items_of-Decided selection (some c) = plan_items-Decided selection.status c

-- The numbers of a plan's summary add up to the number of its items.
pub build-total :
    (policy : UnresolvedWorkspacePolicy) (selection : Selection) (now : State)
    (sessions : List Text)
    → total (build policy selection now sessions).summary
      ≡ length (build policy selection now sessions).items
unfolding build summarize
build-total policy selection now sessions =
    count_items-total no_items (items_of policy selection selection.checkpoint now sessions)
      (items_of-Decided policy now sessions selection selection.checkpoint)
    ∙ omega arith
