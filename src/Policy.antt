-- ===== src/Policy.antt =====
-- noports_policy_limits: atSign names, the cache of policy decisions, and the request cooldown.
pub mod Atsign
pub mod Cache
pub mod Cooldown
pub mod Wait
