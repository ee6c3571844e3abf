-- ===== src/Recovery/Probe/Keeps.antt =====
-- beginProbe and finishProbe of internal/mirror/session_recovery.go, and the invariant.
use terminal_redeemer.Base.{
  ℕ, ◌==◌, not, ◌||◌, Option, none, some, Text, Map, arith, Returns, Returns-mono, by_test,
}
use terminal_redeemer.Recovery.Inventory.{SessionInventory}
use terminal_redeemer.Recovery.State.{Time, Member, SessionRecovery, ProbeError, expire}
use terminal_redeemer.Recovery.Roster.{Sound, Inv, Roster-map_entries}
use terminal_redeemer.Recovery.Admission.{admit}
use terminal_redeemer.Recovery.Admission.Keeps.{Admitted, admit-Admitted}
use terminal_redeemer.Recovery.Probe.{
  begin_probe, settle, probe_failed, probe_succeeded, recheck, probe_error, finish_probe,
}
use terminal_redeemer.Recovery.Exchange.Handling.{request_probe-Inv}

pub begin_probe-Inv : (s : SessionRecovery) (now : Time) → Inv s → Inv (begin_probe s now).0
unfolding begin_probe
begin_probe-Inv s now v = ground arith

settle-Sound :
    (observing : Map ℕ) (inventory : SessionInventory) (c : Text) (m : Member)
    → Sound c m
    → Sound c (settle observing inventory c m)
unfolding settle
settle-Sound observing inventory c m v = ground arith

pub probe_succeeded-Inv :
    (s : SessionRecovery) (now : Time) (inventory : SessionInventory)
    → Inv s
    → Inv (probe_succeeded s now inventory)
unfolding probe_succeeded
probe_succeeded-Inv s now inventory v =
    Roster-map_entries (settle s.observing inventory) (settle-Sound s.observing inventory)
      (λ c m. unfold settle in ground arith) (λ c m. unfold settle in ground arith) v

pub recheck-Inv : (s : SessionRecovery) (now : Time) → Inv s → Inv (recheck s now)
unfolding recheck
recheck-Inv s now v = by_test Inv _ _ s (λ _. request_probe-Inv s now v) (λ _. v)

pub finish_probe-Inv :
    (s : SessionRecovery) (sequence : ℕ) (now : Time) (inventory : SessionInventory)
    (error : Option Text)
    → Inv s
    → Returns Inv (finish_probe s sequence now inventory error)
unfolding finish_probe probe_failed
finish_probe-Inv s sequence now inventory error v =
    by_test (Returns Inv) (not s.checking || not (sequence == s.sequence)) (some s) _ (λ _. v)
      (λ _. settled (probe_error inventory error))
  where
    done : SessionRecovery
    done = recheck (probe_succeeded s now inventory) now

    settled :
        (e : Option ProbeError)
        → Returns Inv (elim e [ some x ↦ some (probe_failed s now x) | none ↦ admit done now ])
    settled (some x) = v
    settled none =
        Returns-mono (Admitted (expire done now) now) Inv (admit done now)
          (admit-Admitted done now (recheck-Inv _ now (probe_succeeded-Inv s now inventory v)))
          (λ s' a. a.inv)
