-- ===== src/Oncall.antt =====
-- internal/oncall: the throttle of throttle.go that decides which broken objects earn a call of a
-- language model. The investigation around it is not modelled.
pub mod Throttle
pub mod Budget
pub mod Cooldown
mod Tests
