-- ===== src/Recovery/State.antt =====
-- internal/mirror/session_recovery.go: the state of the coordinator. Times and durations are counts
-- of nanoseconds since Go's zero time.
use terminal_redeemer.Base.{
  ℕ, ◌+◌, ◌*◌, ◌^◌, min, Bool, true, false, not, ◌&&◌, ◌||◌, ◌==◌, ltb, if◌then◌else◌, Text, same,
  List, [], none, Map, map_entries,
}
use terminal_redeemer.Recovery.Request.{SessionControlRequest}
use terminal_redeemer.Recovery.Inventory.{SessionInventory, InventoryError}

abbrev pub Time : Type 0
Time = ℕ

abbrev pub second : ℕ
second = 1000000000

-- What `reason` says; the texts are those of the code, and a probe's error keeps its own.
pub data ProbeError : Type 0 where
  failed : Text → ProbeError
  invalid : InventoryError → ProbeError

pub data Reason : Type 0 where
  waiting_for_host waiting_for_admission session_backoff : Reason
  observation_unavailable : ProbeError → Reason

-- `recoveryMember`. The code compares members by pointer; `ref` is the number of the allocation.
pub record Member : Type 0 where
  pub ref : ℕ
  pub identity : SessionControlRequest
  pub proposed : Text
  pub active : Text
  pub retired : Text
  pub deadline : Time
  pub is_ready : Bool
  pub ended : Bool
  pub reset : Bool

pub record SessionRetry : Type 0 where
  pub failures : ℕ
  pub at : Time

-- `sessionRecovery`. `next_ref` numbers the members that are allocated.
pub record SessionRecovery : Type 0 where
  pub members : Map Member
  pub order : List Text
  pub sessions : Map SessionRetry
  pub available : Bool
  pub checking : Bool
  pub wanted : Bool
  pub reason : Reason
  pub next_probe : Time
  pub last_probe : Time
  pub failures : ℕ
  pub sequence : ℕ
  pub observing : Map ℕ
  pub inventory : SessionInventory
  pub next_ref : ℕ

abbrev pub empty_inventory : SessionInventory
empty_inventory = record { generated_at = 0; active_sessions = none; session_ids = none }

unfoldable pub new_session_recovery : SessionRecovery
new_session_recovery = record {
  members = [];
  order = [];
  sessions = [];
  available = false;
  checking = false;
  wanted = false;
  reason = waiting_for_host;
  next_probe = 0;
  last_probe = 0;
  failures = 0;
  sequence = 0;
  observing = [];
  inventory = empty_inventory;
  next_ref = 0;
}

-- `min(30*time.Second, time.Second*(1<<min(failures, 5)))`.
unfoldable pub recovery_delay : ℕ → ℕ
recovery_delay failures = min (30 * second) (second * 2 ^ min failures 5)

unfoldable pub request_probe : SessionRecovery → Time → SessionRecovery
request_probe s now =
    let floor = s.last_probe + second in
    let due = if ltb now floor then floor else now in
    if s.checking then s else record s {
      wanted = true;
      next_probe = if s.next_probe == 0 || ltb due s.next_probe then due else s.next_probe;
    }

-- A granted attempt whose readiness is still out.
abbrev pub is_pending : Member → Bool
is_pending m = not (same m.active []) && not m.is_ready

unfoldable pub expire_member : Time → Text → Member → Member
expire_member now id m =
    if is_pending m && not (ltb now m.deadline) then record m { reset = true } else m

unfoldable pub expire : SessionRecovery → Time → SessionRecovery
expire s now = record s { members = map_entries (expire_member now) s.members }
