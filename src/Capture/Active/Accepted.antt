-- ===== src/Capture/Active/Accepted.antt =====
-- `authoritativeActiveSessions` of internal/capture/runner.go: the catalogs that it does not refuse.
use terminal_redeemer.Base.{
  ◌≡◌, refl, ap, Bool, true, false, List, [], ◌∷◌, none, Text, same, seen, Map, get, keys, Each,
  Distinct, All, arith, sort_by, text_ltb,
}
use terminal_redeemer.Checkpoints.{is_some}
use terminal_redeemer.Checkpoints.Validation.{IsName, Fresh, Distinct-Fresh, none_before}
use terminal_redeemer.Zellij.Catalog.{
  Catalog, Session, LiveStatus, active, dead_resurrectable, missing, prefix_only, duplicate,
  socket_invalid, unknown,
}
use terminal_redeemer.Capture.Active.{
  ActiveSessions, authoritative, ambiguous, add_active, with_status, check_names, collect_active,
  sorted_active, authoritative_active_sessions,
}
use terminal_redeemer.Capture.Active.Allowed.{AllowList, authoritative_active_sessions-AllowList}

-- The session is active, or dead and can be resurrected.
abbrev pub is_settled : LiveStatus → Bool
is_settled active = true
is_settled dead_resurrectable = true
is_settled _ = false

-- A record under its own name, which is listed.
abbrev pub IsRecord : List Text → Text → Session → Type 0
IsRecord names name s =
    (seen name names ≡ true) × (same s.name name ≡ true) × (is_settled s.status ≡ true)

-- Each name is listed once and recorded, and each record is of a listed name and settled.
pub record IsWellFormed (c : Catalog) : Type 0 where
  pub names : All IsName c.names
  pub distinct : Distinct c.names
  pub recorded : All (λ n. is_some (get n c.sessions) ≡ true) c.names
  pub records : Each (IsRecord c.names) c.sessions

check_names-Fresh :
    (sessions : Map Session) (before names : List Text)
    → All IsName names
    → All (λ n. is_some (get n sessions) ≡ true) names
    → Fresh before names
    → check_names sessions before names ≡ none
unfolding check_names
check_names-Fresh sessions before [] h r f = refl
check_names-Fresh sessions before (n ∷ names) h r f =
    ground (arith, h.0, r.0, f.0, check_names-Fresh sessions (n ∷ before) names h.1 r.1 f.1)

-- The list is there.
abbrev pub IsAuthoritative : ActiveSessions → Type 0
IsAuthoritative a = (names : List Text) × (a ≡ authoritative names)

with_status-IsAuthoritative :
    (name : Text) (status : LiveStatus) (rest : ActiveSessions)
    → is_settled status ≡ true
    → IsAuthoritative rest
    → IsAuthoritative (with_status name status rest)
with_status-IsAuthoritative name active rest h (names, e) = (name ∷ names, ap (add_active name) e)
with_status-IsAuthoritative name dead_resurrectable rest h r = r
with_status-IsAuthoritative name missing rest h r = cc
with_status-IsAuthoritative name prefix_only rest h r = cc
with_status-IsAuthoritative name duplicate rest h r = cc
with_status-IsAuthoritative name socket_invalid rest h r = cc
with_status-IsAuthoritative name unknown rest h r = cc

collect_active-IsAuthoritative :
    (names : List Text) (sessions : Map Session)
    → Each (IsRecord names) sessions
    → IsAuthoritative (collect_active names sessions)
unfolding collect_active
collect_active-IsAuthoritative names [] h = ([], refl)
collect_active-IsAuthoritative names ((name, s) ∷ sessions) h =
    let r =
      with_status-IsAuthoritative name s.status _ h.0.2
        (collect_active-IsAuthoritative names sessions h.1) in
    (r.0, rw (h.0.0, h.0.1) r.1)

IsWellFormed-IsAuthoritative :
    (catalog : Catalog)
    → IsWellFormed catalog
    → IsAuthoritative (authoritative_active_sessions catalog)
unfolding authoritative_active_sessions
IsWellFormed-IsAuthoritative catalog w =
    let c =
      check_names-Fresh catalog.sessions [] catalog.names w.names w.recorded
        (Distinct-Fresh [] catalog.names w.distinct (none_before catalog.names)) in
    let r = collect_active-IsAuthoritative catalog.names catalog.sessions w.records in
    (sort_by text_ltb r.0, rw (c, authoritative_active_sessions) (ap sorted_active r.1))

-- What is listed of a catalog, and why it is refused.
abbrev pub Judged : Catalog → ActiveSessions → Type 0
Judged c (authoritative names) = AllowList IsName c.sessions (authoritative names)
Judged c (ambiguous _) = ¬ IsWellFormed c

judge :
    (c : Catalog) (a : ActiveSessions)
    → (IsWellFormed c → IsAuthoritative a)
    → AllowList IsName c.sessions a
    → Judged c a
judge c (authoritative names) f h = h
judge c (ambiguous e) f h = λ w. clash (f w)
  where
    clash : IsAuthoritative (ambiguous e) → ⊥
    clash (names, q) = cc

-- A catalog is refused only where a name is blank, has white space around it, is listed twice or not
-- recorded, or a record is not of a listed name or is neither active nor dead; and else the list holds
-- exactly the names of the active sessions, each once. A map has one record for a name.
pub authoritative_active_sessions-Judged :
    (catalog : Catalog)
    → Distinct (keys catalog.sessions)
    → Judged catalog (authoritative_active_sessions catalog)
authoritative_active_sessions-Judged catalog d =
    judge catalog (authoritative_active_sessions catalog) (IsWellFormed-IsAuthoritative catalog)
      (authoritative_active_sessions-AllowList catalog d)
