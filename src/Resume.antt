-- ===== src/Resume.antt =====
-- internal/resume: which checkpoint a resume starts from, and the plan that it makes of it.
pub mod Selection
pub mod Workspaces
pub mod Items
pub mod Plan
pub mod Candidates
pub mod All
mod Samples
