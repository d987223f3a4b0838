-- ===== src/Onboarding.antt =====
-- internal/controller/onboarding.go: the plans of new folders, and what becomes of them.
pub mod Plans
pub mod Create
pub mod Making
mod Examples
