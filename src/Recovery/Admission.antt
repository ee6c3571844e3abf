-- ===== src/Recovery/Admission.antt =====
-- internal/mirror/session_recovery.go: expiry and admission. `none` is a panic: a nil member or retry
-- record dereferenced, or an empty queue read.
pub mod Grants
pub mod Keeps
use terminal_redeemer.Base.{
  ℕ, seen, zero, suc, ◌+◌, ◌*◌, Bool, not, ◌||◌, ltb, if◌then◌else◌, Text, same, List, [], ◌∷◌,
  ◌++◌, Option, none, some, ◌>>=◌, Map, get, put, length,
}
use terminal_redeemer.Recovery.Inventory.{session_id_of}
use terminal_redeemer.Recovery.State.{
  Time, second, Member, SessionRetry, SessionRecovery, is_pending, expire,
}

-- The number of pending members, and the identities of their sessions.
unfoldable pub count_pending : Map Member → ℕ
count_pending [] = 0
count_pending ((id, m) ∷ ms) = if is_pending m then suc (count_pending ms) else count_pending ms

unfoldable pub pending_sessions : Map Member → List Text
pending_sessions [] = []
pending_sessions ((id, m) ∷ ms) =
    if is_pending m then m.identity.session_id ∷ pending_sessions ms else pending_sessions ms

-- The variables of the loop in `admit`.
pub record Round : Type 0 where
  pub state : SessionRecovery
  pub pending : ℕ
  pub busy : List Text

abbrev pub lease : ℕ
lease = 15 * second

-- What can be said of a member before its retry record is read.
unfoldable pub is_blocked : List Text → Member → Bool
is_blocked busy m =
    m.ended
    || m.reset
    || not (same m.active [])
    || same m.proposed m.retired
    || seen m.identity.session_id busy

unfoldable pub is_waiting : SessionRecovery → Time → Member → SessionRetry → Bool
is_waiting s now m retry =
    ltb now retry.at
    || not (same (session_id_of s.inventory m.identity.session) m.identity.session_id)

unfoldable pub granted : Time → Member → Member
granted now m = record m { active = m.proposed; deadline = now + lease }

unfoldable pub grant : Time → Text → Member → Round → Round
unfolding granted
grant now id m a = record {
  state = record s { members = put id (granted now m) s.members };
  pending = suc a.pending;
  busy = m.identity.session_id ∷ a.busy;
}
  where
    s : SessionRecovery
    s = a.state

-- The tests of one round on the member at the head of the queue.
unfoldable pub try_member : Time → Text → Member → Round → Option Round
unfolding grant
try_member now id m a =
    if is_blocked a.busy m then some a else elim (get m.identity.session_id a.state.sessions) [
      | none ↦ none
      | some retry ↦ if is_waiting a.state now m retry then some a else some (grant now id m a)
    ]

-- The head of the queue goes to its tail before it is looked at.
unfoldable pub rotated : Text → List Text → Round → Round
rotated id rest a = record a { state = record (a.state) { order = rest ++ id ∷ [] } }

unfoldable pub admit_next : Time → List Text → Round → Option Round
unfolding rotated
admit_next now [] a = none
admit_next now (id ∷ rest) a = elim (get id a.state.members) [
  | none ↦ none
  | some m ↦ try_member now id m (rotated id rest a)
]

-- `for i := 0; i < n && pending < 2; i++`.
unfoldable pub admit_loop : Time → ℕ → Round → Option Round
unfolding admit_next
admit_loop now zero a = some a
admit_loop now (suc n) a =
    let rest = admit_next now a.state.order a >>= admit_loop now n in
    if ltb a.pending 2 then rest else some a

unfoldable pub start : SessionRecovery → Round
start s = record { state = s; pending = count_pending s.members; busy = pending_sessions s.members }

unfoldable pub admit : SessionRecovery → Time → Option SessionRecovery
admit s₀ now =
    let s = expire s₀ now in
    let result = admit_loop now (length s.order) (start s) >>= (λ a. some a.state) in
    if s.available then result else some s
