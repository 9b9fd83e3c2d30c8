-- ===== src/Team.antt =====
-- team.py: the compliance team, its capabilities and its plan.
pub mod Plan
pub mod Roles
