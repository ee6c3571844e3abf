-- ===== src/Supervisor/Effects/Reasons.antt =====
-- The effects of every event of the loop of internal/mirror/session_supervisor.go.
use terminal_redeemer.Base.{refl, by_test, All}
use terminal_redeemer.Supervisor.{Identity, Supervisor}
use terminal_redeemer.Supervisor.Handling.{Outcome}
use terminal_redeemer.Supervisor.Events.{
  Happening, reader_reads, reader_waits, local, input_taken, input_closed, output, child_done,
  replied, admitted, ticked, cancelled, supervise,
}
use terminal_redeemer.Supervisor.Effects.{effects_of, Justified}
use terminal_redeemer.Supervisor.Effects.Quiet.{on_output-AllOf, on_tick-AllOf, on_done-AllOf}
use terminal_redeemer.Supervisor.Effects.Input.{on_local-Justified, take_input-Justified}
use terminal_redeemer.Supervisor.Effects.Answers.{replied-Justified}

-- Whatever the event, bytes go to the child only from the input or the caller that the open attachment
-- is the origin of, and a child is started only where there is none, by a grant of the own attempt.
pub supervise-Justified :
    (id : Identity) (s : Supervisor) (h : Happening)
    → All (Justified id s h) (effects_of (supervise id s h))
unfolding supervise
supervise-Justified id s (reader_reads bs) = tt
supervise-Justified id s (reader_waits now) = tt
supervise-Justified id s (local call works) = on_local-Justified id s call works
supervise-Justified id s (input_taken works w) = take_input-Justified id s works w
supervise-Justified id s input_closed = tt
supervise-Justified id s (output bytes events works w) =
    by_test (λ (o : Outcome). All (Justified id s (output bytes events works w)) (effects_of o))
      s.child _ _
      (λ _.
        on_output-AllOf (Justified id s (output bytes events works w)) (λ _. tt) tt id bytes events
          works w s)
      (λ _. tt)
supervise-Justified id s (child_done outcome) =
    by_test (λ (o : Outcome). All (Justified id s (child_done outcome)) (effects_of o)) s.child _ _
      (λ _. on_done-AllOf (Justified id s (child_done outcome)) (λ _. tt) tt id outcome s) (λ _. tt)
supervise-Justified id s (replied reply c) = replied-Justified id s c reply s.in_flight refl
supervise-Justified id s admitted =
    by_test (λ (o : Outcome). All (Justified id s admitted) (effects_of o)) s.admission _ _
      (λ _. tt) (λ _. tt)
supervise-Justified id s (ticked now w) =
    on_tick-AllOf (Justified id s (ticked now w)) (λ _. tt) tt id now w s
supervise-Justified id s cancelled = tt
