-- ===== src/Capture/Active.antt =====
-- `authoritativeActiveSessions` of internal/capture/runner.go. The loop over the records goes over a
-- map; where several of them are ambiguous, which one the error names is left to the order.
pub mod Allowed
pub mod Accepted
use terminal_redeemer.Base.{
  not, ◌||◌, List, [], ◌∷◌, Option, none, some, Text, same, seen, Map, get, sort_by, text_ltb,
  trim_space, if◌then◌else◌,
}
use terminal_redeemer.Checkpoints.{is_blank, is_some}
use terminal_redeemer.Zellij.Catalog.{Catalog, Session, LiveStatus, active, dead_resurrectable}

pub data CatalogError : Type 0 where
  ambiguous_name no_record ambiguous_record : Text → CatalogError
  not_authoritative : Text → LiveStatus → CatalogError

pub data ActiveSessions : Type 0 where
  authoritative : List Text → ActiveSessions
  ambiguous : CatalogError → ActiveSessions

-- The loop over the names; `before` are those it has passed.
unfoldable pub check_names : Map Session → List Text → List Text → Option CatalogError
unfolding get
check_names sessions before [] = none
check_names sessions before (name ∷ names) =
    let rest = check_names sessions (name ∷ before) names in
    if is_blank name || not (same name (trim_space name)) || seen name before
    then some (ambiguous_name name)
    else if not (is_some (get name sessions))
    then some (no_record name)
    else rest

abbrev pub add_active : Text → ActiveSessions → ActiveSessions
add_active name (authoritative names) = authoritative (name ∷ names)
add_active name (ambiguous e) = ambiguous e

abbrev pub with_status : Text → LiveStatus → ActiveSessions → ActiveSessions
with_status name active rest = add_active name rest
with_status name dead_resurrectable rest = rest
with_status name status rest = ambiguous (not_authoritative name status)

-- The loop over the records.
unfoldable pub collect_active : List Text → Map Session → ActiveSessions
collect_active names [] = authoritative []
collect_active names ((name, session) ∷ sessions) =
    let rest = collect_active names sessions in
    if not (seen name names) || not (same session.name name)
    then ambiguous (ambiguous_record name)
    else with_status name session.status rest

abbrev pub sorted_active : ActiveSessions → ActiveSessions
sorted_active (authoritative names) = authoritative (sort_by text_ltb names)
sorted_active (ambiguous e) = ambiguous e

unfoldable pub authoritative_active_sessions : Catalog → ActiveSessions
unfolding check_names collect_active
authoritative_active_sessions catalog = elim (check_names catalog.sessions [] catalog.names) [
  | some e ↦ ambiguous e
  | none ↦ sorted_active (collect_active catalog.names catalog.sessions)
]
