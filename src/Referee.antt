-- ===== src/Referee.antt =====
-- The referee of brain/merita/referee: the sandbox, its two tiers, and the handles on it.
pub mod Sandbox
pub mod Tier1
pub mod Tier2
pub mod Client
pub mod Fairness
pub mod Children
pub mod Adjudication
pub mod Isolation
