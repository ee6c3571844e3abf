-- ===== src/Zellij.antt =====
-- internal/zellijlive: session names, session identities and the catalog of live sessions.
pub mod Name
pub mod SessionId
pub mod Catalog
mod Samples
