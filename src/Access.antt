-- ===== src/Access.antt =====
-- Who may do what: apps/core/permissions.py, apps/accounts/guards.py and the memberships of
-- apps/accounts/models.py.
pub mod State
pub mod Resolve
pub mod Guards
pub mod Escalation
pub mod GuardLaws
pub mod DenyLaws
mod Tests
