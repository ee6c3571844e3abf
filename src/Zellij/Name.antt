-- ===== src/Zellij/Name.antt =====
-- internal/zellijlive/catalog.go: which names may be joined to a socket directory.
use terminal_redeemer.Base.{
  [], Bool, not, ◌&&◌, leb, Text, codes, same, length, trim_space, has_control, valid_utf8,
  contains_byte,
}

unfoldable pub safe_session_name : Text → Bool
safe_session_name name =
    not (same name [])
    && not (same name (codes "."))
    && not (same name (codes ".."))
    && leb (length name) 255
    && not (contains_byte b'/' name)
    && valid_utf8 name
    && same (trim_space name) name
    && not (has_control name)
