-- ===== src/Supervisor/Effects/Input.antt =====
-- The bytes that the helper of internal/mirror/session_supervisor.go writes to its child: input of the
-- terminal, and of callers on this machine.
use terminal_redeemer.Base.{
  ◌≡◌, refl, by_test, Bool, not, ◌&&◌, ◌||◌, ◌==◌, List, [], ◌∷◌, Option, none, some, arith, All,
  if◌then◌else◌,
}
use terminal_redeemer.Stream.Gate.{SessionInput}
use terminal_redeemer.Supervisor.{
  Identity, Supervisor, Acted, done, then_do, is_open, Surroundings, open_attachment,
}
use terminal_redeemer.Supervisor.Events.{
  SessionInputOrigin, LocalCall, local, input_taken, write_child, is_origin, on_local, on_input,
  take_input, contains_enter,
}
use terminal_redeemer.Supervisor.Effects.{from_item, from_caller, Justified}
use terminal_redeemer.Supervisor.Effects.Quiet.{
  then_do-AllOf, open_attachment-AllOf, write_child-AllOf,
}

module _ (id : Identity) (s : Supervisor) where
  pub on_local-Justified :
      (call : LocalCall) (works : Bool)
      → All (Justified id s (local call works)) (on_local id call works s).effects
  unfolding on_local is_origin
  on_local-Justified call works = by_origin call.origin refl
    where
      by_origin :
          (o : Option SessionInputOrigin)
          → call.origin ≡ o
          → All (Justified id s (local call works)) (
              (elim o as (λ _. Acted) [
                | none ↦ done s
                | some o ↦
                    if call.expired || not (is_origin id o s)
                    then done s
                    else write_child works call.input s
              ]).effects)
      by_origin none e = tt
      by_origin (some o) e =
          by_test (λ (a : Acted). All (Justified id s (local call works)) a.effects)
            (call.expired || not (is_origin id o s)) _ _ (λ _. tt)
            (λ h.
              write_child-AllOf (Justified id s (local call works)) (λ _. tt) tt works call.input s
                (from_caller call works o e (ground (arith, h)) (ground (arith, h))
                  (ground (arith, h)) (ground (arith, h)) (ground (arith, h)) (ground (arith, h))))

  on_input-Justified :
      (item : SessionInput) (rest : List SessionInput) (works : Bool) (w : Surroundings)
      → s.queue ≡ item ∷ rest
      → All
          (Justified id s (input_taken works w))
          (on_input id works item (record s { queue = rest })).effects
  unfolding on_input
  on_input-Justified item rest works w e =
      by_test (λ (a : Acted). All (Justified id s (input_taken works w)) a.effects)
        (s.child && is_open s && item.generation == s.gate.generation) _ _
        (λ h.
          write_child-AllOf (Justified id s (input_taken works w)) (λ _. tt) tt works item.bytes
            (record s { queue = rest })
            (from_item item rest works w e (ground (arith, h)) (ground (arith, h))
              (ground (arith, h))))
        (λ _.
          by_test (λ (a : Acted). All (Justified id s (input_taken works w)) a.effects)
            (not (is_open s) && item.generation == 0 && not item.paste && contains_enter item.bytes)
            _ _ (λ _. tt) (λ _. tt))

  pub take_input-Justified :
      (works : Bool) (w : Surroundings)
      → All (Justified id s (input_taken works w)) (take_input id works w s).effects
  unfolding take_input
  take_input-Justified works w = by_queue s.queue refl
    where
      by_queue :
          (q : List SessionInput)
          → s.queue ≡ q
          → All (Justified id s (input_taken works w)) (
              (elim q as (λ _. Acted) [
                | [] ↦ done s
                | item ∷ rest ↦
                    then_do
                      (on_input id works item (record s { queue = rest }))
                      (open_attachment id w)
              ]).effects)
      by_queue [] e = tt
      by_queue (item ∷ rest) e =
          then_do-AllOf (Justified id s (input_taken works w)) (λ _. tt) tt
            (on_input id works item (record s { queue = rest })) (open_attachment id w)
            (on_input-Justified item rest works w e)
            (open_attachment-AllOf (Justified id s (input_taken works w)) (λ _. tt) tt id w)
