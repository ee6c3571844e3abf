-- ===== src/Resume/Plan/Rounds.antt =====
-- The loop of `Build` in internal/resume/planner.go over the captured windows.
use terminal_redeemer.Base.{
  ◌≡◌, refl, sym, ◌∙◌, inl, inr, true, false, ◌&&◌, ◌||◌, List, [], ◌∷◌, Text, same, any, seen,
  Distinct, arith, Bool-cases, by_test,
}
use terminal_redeemer.Model.{Window}
use terminal_redeemer.Resume.Plan.{Scene, decide, noted, build_items}
use terminal_redeemer.Resume.Items.{current, Item, new_item, session_of}
use terminal_redeemer.Resume.Plan.Launches.{
  launches, is_launch, is_free, runs, decide-session, decide_sound, decide_complete, noted_lem,
  new_item-session,
}

pub launches-cons :
    (s : Text) (i : Item) (is : List Item)
    → seen s (launches (i ∷ is)) ≡ (is_launch i.status && same i.session s || seen s (launches is))
unfolding launches any
launches-cons s i is = ground arith

Distinct-launches :
    (i : Item) (is : List Item)
    → Distinct (launches is)
    → (is_launch i.status ≡ true → seen i.session (launches is) ≡ false)
    → Distinct (launches (i ∷ is))
unfolding launches
Distinct-launches i is d h =
    by_test Distinct (is_launch i.status) (i.session ∷ launches is) (launches is) (λ t. (h t, d))
      (λ _. d)

is_free-subst : (scene : Scene) (s t : Text) → s ≡ t → is_free scene s ≡ is_free scene t
is_free-subst scene s t e = rw e

seen-subst : (s t : Text) (xs : List Text) → s ≡ t → seen s xs ≡ seen t xs
seen-subst s t xs e = rw e

module _ (scene : Scene) where
  head : List Text → Window → Item
  head before w = decide scene before (new_item w scene.captured)

  head-session : (before : List Text) (w : Window) → (head before w).session ≡ session_of w.terminal
  unfolding head
  head-session before w =
      decide-session scene before (new_item w scene.captured) ∙ new_item-session w scene.captured

  head_sound :
      (s : Text) (before : List Text) (w : Window)
      → (is_launch (head before w).status && same (session_of w.terminal) s) ≡ true
      → (is_free scene s ≡ true) × (seen s before ≡ false)
  unfolding head
  head_sound s before w h =
      let r = decide_sound scene before (new_item w scene.captured) (ground arith) in
      let e : (new_item w scene.captured).session ≡ s =
        new_item-session w scene.captured ∙ ground arith in
      (sym (is_free-subst scene _ _ e) ∙ r.0, sym (seen-subst _ _ before e) ∙ r.1)

  head_complete :
      (s : Text) (before : List Text) (w : Window)
      → scene.policy ≡ current
      → is_free scene s ≡ true
      → seen s before ≡ false
      → session_of w.terminal ≡ s
      → is_launch (head before w).status ≡ true
  unfolding head
  head_complete s before w p h k q =
      let e : (new_item w scene.captured).session ≡ s = new_item-session w scene.captured ∙ q in
      decide_complete scene before (new_item w scene.captured) p (is_free-subst scene _ _ e ∙ h)
        (seen-subst _ _ before e ∙ k)

  abbrev pub launched : List Text → List Window → List Text
  launched before ws = launches (build_items scene before ws)

  launched-cons :
      (s : Text) (before : List Text) (w : Window) (ws : List Window)
      → seen s (launched before (w ∷ ws)) ≡ (
          is_launch (head before w).status && same (session_of w.terminal) s
          || seen s (launched (noted (session_of w.terminal) before) ws))
  unfolding head build_items
  launched-cons s before w ws =
      rw
        (launches-cons s (head before w)
          (build_items scene (noted (new_item w scene.captured).session before) ws))
        (rw (head-session before w, new_item-session w scene.captured) refl)

  -- What is launched can be, and did not come before; a window runs it.
  pub launched_sound :
      (s : Text) (before : List Text) (ws : List Window)
      → seen s (launched before ws) ≡ true
      → (is_free scene s ≡ true) × (seen s before ≡ false) × (runs s ws ≡ true)
  unfolding launches build_items any
  launched_sound s before [] h = cc
  launched_sound s before (w ∷ ws) h =
      elim (Bool-cases (is_launch (head before w).status && same (session_of w.terminal) s)) [
        | inl t ↦ let r = head_sound s before w t in (r.0, r.1, ground arith)
        | inr f ↦
            let r =
              launched_sound s (noted (session_of w.terminal) before) ws
                (ground (arith, launched-cons s before w ws)) in
            let n = noted_lem s (session_of w.terminal) before (ground (arith, r.0)) in
            (r.0, ground (arith, n, r.1), ground (arith, r.2))
      ]

  -- Under the policy of the current workspace, all that can be launched is.
  pub launched_complete :
      (s : Text) (before : List Text) (ws : List Window)
      → scene.policy ≡ current
      → is_free scene s ≡ true
      → seen s before ≡ false
      → runs s ws ≡ true
      → seen s (launched before ws) ≡ true
  unfolding any
  launched_complete s before [] p h k r = cc
  launched_complete s before (w ∷ ws) p h k r = elim (Bool-cases (same (session_of w.terminal) s)) [
    | inl q ↦
        launched-cons s before w ws ∙ ground (arith, head_complete s before w p h k (ground arith))
    | inr q ↦
        let n = noted_lem s (session_of w.terminal) before (ground (arith, h)) in
        let l =
          launched_complete s (noted (session_of w.terminal) before) ws p h (ground (arith, n))
            (ground arith) in
        launched-cons s before w ws ∙ ground (arith, l)
  ]

  not_again :
      (before : List Text) (x : Text) (ws : List Window)
      → is_free scene x ≡ true
      → seen x (launched (noted x before) ws) ≡ false
  not_again before x ws h = elim (Bool-cases (seen x (launched (noted x before) ws))) [
    | inl t ↦
        let r = launched_sound x (noted x before) ws t in
        let n = noted_lem x x before (ground (arith, h)) in absurd (clash before x n r.1)
    | inr f ↦ f
  ]
    where
      clash :
          (before : List Text) (x : Text)
          → seen x (noted x before) ≡ (seen x before || same x x)
          → seen x (noted x before) ≡ false
          → ⊥
      clash before x n f = ground (arith, n, f)

  launched-Distinct_cons :
      (before : List Text) (w : Window) (ws : List Window)
      → Distinct (launched (noted (session_of w.terminal) before) ws)
      → Distinct (launched before (w ∷ ws))
  unfolding build_items new_item
  launched-Distinct_cons before w ws h =
      Distinct-launches (decide scene before (new_item w scene.captured))
        (build_items scene (noted (session_of w.terminal) before) ws) h
        (λ t. rw (decide-session scene before (new_item w scene.captured)) (
          not_again before (session_of w.terminal) ws
            (decide_sound scene before (new_item w scene.captured) t).0))

  -- No session is launched twice.
  pub launched-Distinct : (before : List Text) (ws : List Window) → Distinct (launched before ws)
  unfolding build_items launches
  launched-Distinct before [] = tt
  launched-Distinct before (w ∷ ws) =
      launched-Distinct_cons before w ws
        (launched-Distinct (noted (session_of w.terminal) before) ws)
