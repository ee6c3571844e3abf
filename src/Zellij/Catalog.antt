-- ===== src/Zellij/Catalog.antt =====
-- internal/zellijlive/types.go: the catalog of the sessions of this host.
use terminal_redeemer.Base.{
  Bool, false, not, List, [], none, some, Text, same, any, strip_prefix, Map, get, if◌then◌else◌,
}

-- `unknown` is any other text.
pub data LiveStatus : Type 0 where
  active dead_resurrectable missing prefix_only duplicate socket_invalid unknown : LiveStatus

pub record Session : Type 0 where
  pub name : Text
  pub id : Text
  pub exact_id : Text
  pub status : LiveStatus

pub record Catalog : Type 0 where
  pub sessions : Map Session
  pub names : List Text
  pub resurrection_cache_available : Bool

abbrev no_session : Text → LiveStatus → Session
no_session name status = record { name = name; id = []; exact_id = []; status = status }

-- The candidate is longer than the name and begins with it.
unfoldable pub extends : Text → Text → Bool
extends name candidate = elim (strip_prefix name candidate) [
  | none ↦ false
  | some rest ↦ not (same rest [])
]

unfoldable pub exact : Catalog → Text → Session
unfolding extends
exact catalog name = elim (get name catalog.sessions) [
  | some session ↦ session
  | none ↦
      if any (extends name) catalog.names
      then no_session name prefix_only
      else no_session name missing
]
