-- ===== src/Supervisor/Effects/Quiet.antt =====
-- The effects of the operations of internal/mirror/session_supervisor.go beside input and grants.
use terminal_redeemer.Base.{
  ℕ, ◌+◌, by_test, Bool, not, ◌&&◌, ◌||◌, List, [], ◌∷◌, ◌++◌, Text, codes, same, All, length, ltb,
  if◌then◌else◌,
}
use terminal_redeemer.Stream.Gate.{Opening, opened, not_opened, open_gate}
use terminal_redeemer.Supervisor.{
  Identity, Supervisor, Effect, to_child, to_screen, stops, Acted, done, then_do, is_open, send,
  lose, Surroundings, announce, opened_by, open_attachment,
}
use terminal_redeemer.Supervisor.Handling.{Outcome, cancel, reset}
use terminal_redeemer.Supervisor.Events.{
  write_child, write_screen, on_data, on_events, on_output, on_done, on_tick, max_attachment_frame,
}
use terminal_redeemer.Supervisor.Effects.{effects_of}

pub All-append :
    (P : Effect → Type 0) (es fs : List Effect) → All P es → All P fs → All P (es ++ fs)
All-append P [] fs h k = k
All-append P (e ∷ es) fs h k = (h.0, All-append P es fs h.1 k)

-- A property of effects that drawing and the stop of the child have.
module _ (P : Effect → Type 0) (draws : (s : Text) → P (to_screen s)) (stopping : P stops) where
  abbrev pub AllOf : Acted → Type 0
  AllOf a = All P a.effects

  pub then_do-AllOf :
      (a : Acted) (f : Supervisor → Acted)
      → AllOf a
      → ((t : Supervisor) → AllOf (f t))
      → AllOf (then_do a f)
  then_do-AllOf a f h k = All-append P a.effects _ h (k a.state)

  pub lose-AllOf : (s : Supervisor) → AllOf (lose s)
  unfolding lose
  lose-AllOf s = by_test (All P) s.child _ _ (λ _. (stopping, tt)) (λ _. tt)

  pub opened_by-AllOf :
      (id : Identity) (w : Surroundings) (s : Supervisor) (o : Opening) → AllOf (opened_by id w s o)
  unfolding opened_by announce
  opened_by-AllOf id w s opened =
      by_test AllOf w.screen_works _ _ (λ _. (draws _, tt))
        (λ _. (draws _, lose-AllOf (record s { startup_output = [] })))
  opened_by-AllOf id w s not_opened = tt
  opened_by-AllOf id w s Opening.failed = lose-AllOf s

  pub open_attachment-AllOf :
      (id : Identity) (w : Surroundings) (s : Supervisor) → AllOf (open_attachment id w s)
  unfolding open_attachment
  open_attachment-AllOf id w s =
      by_test AllOf (not s.child || s.stopping || not s.proved || is_open s) _ _ (λ _. tt)
        (λ _.
          by_test AllOf (not (ltb w.now s.grant.deadline)) _ _ (λ _. lose-AllOf s)
            (λ _.
              opened_by-AllOf id w (record s { gate = (open_gate w.reads w.flush_at s.gate).0 })
                (open_gate w.reads w.flush_at s.gate).1))

  pub on_data-AllOf : (works : Bool) (bytes : Text) (s : Supervisor) → AllOf (on_data works bytes s)
  unfolding on_data write_screen
  on_data-AllOf works bytes s =
      by_test AllOf (is_open s) _ _
        (λ _. by_test AllOf works _ _ (λ _. (draws bytes, tt)) (λ _. (draws bytes, lose-AllOf s)))
        (λ _.
          by_test AllOf s.stopping _ _ (λ _. tt)
            (λ _.
              by_test AllOf (ltb max_attachment_frame (length s.startup_output + length bytes)) _ _
                (λ _. lose-AllOf s) (λ _. tt)))

  pub on_events-AllOf : (es : List Text) (s : Supervisor) → AllOf (on_events es s)
  unfolding on_events
  on_events-AllOf [] s = tt
  on_events-AllOf (e ∷ es) s =
      then_do-AllOf _ (on_events es)
        (by_test AllOf (same e (codes "ready") && not s.stopping) _ _ (λ _. tt) (λ _. lose-AllOf s))
        (on_events-AllOf es)

  pub on_output-AllOf :
      (id : Identity) (bytes : Text) (events : List Text) (works : Bool) (w : Surroundings)
      (s : Supervisor)
      → AllOf (on_output id bytes events works w s)
  unfolding on_output
  on_output-AllOf id bytes events works w s =
      then_do-AllOf (then_do (on_data works bytes s) (on_events events)) (open_attachment id w)
        (then_do-AllOf (on_data works bytes s) (on_events events) (on_data-AllOf works bytes s)
          (on_events-AllOf events))
        (open_attachment-AllOf id w)

  pub on_tick-AllOf :
      (id : Identity) (now : ℕ) (w : Surroundings) (s : Supervisor) → AllOf (on_tick id now w s)
  unfolding on_tick
  on_tick-AllOf id now w s =
      then_do-AllOf (then_do expired (open_attachment id w)) (λ t. done (send id t))
        (then_do-AllOf expired (open_attachment id w)
          (by_test AllOf (s.child && not (is_open s) && not (ltb now s.grant.deadline)) _ _
            (λ _. lose-AllOf s) (λ _. tt))
          (open_attachment-AllOf id w))
        (λ _. tt)
    where
      expired : Acted
      expired =
          if s.child && not (is_open s) && not (ltb now s.grant.deadline) then lose s else done s

  pub on_done-AllOf :
      (id : Identity) (outcome : Text) (s : Supervisor) → All P (effects_of (on_done id outcome s))
  unfolding on_done
  on_done-AllOf id outcome s =
      by_test (λ (o : Outcome). All P (effects_of o)) (same outcome (codes "detached")) _ _
        (λ _. (stopping, tt)) (λ _. (stopping, tt))

  pub write_child-AllOf :
      (works : Bool) (bytes : Text) (s : Supervisor)
      → P (to_child bytes)
      → AllOf (write_child works bytes s)
  unfolding write_child
  write_child-AllOf works bytes s h =
      by_test AllOf works _ _ (λ _. (h, tt)) (λ _. (h, lose-AllOf s))

  pub cancel-AllOf : (s : Supervisor) → AllOf (cancel s)
  unfolding cancel
  cancel-AllOf s =
      by_test AllOf (s.child && same s.last.cancel_attempt s.grant.attempt) _ _ (λ _. lose-AllOf s)
        (λ _. tt)

  pub reset-AllOf : (s : Supervisor) → AllOf (reset s)
  unfolding reset
  reset-AllOf s =
      by_test AllOf (s.last.reset && not (is_open s)) _ _
        (λ _. by_test AllOf s.child _ _ (λ _. lose-AllOf s) (λ _. tt)) (λ _. tt)
