-- ===== src/Rolloutwait.antt =====
-- internal/rolloutwait/rolloutwait.go: the target of --wait-for, and polling a workload until its
-- rollout settles. `Rolloutwait.Target` is ParseTarget, `Rolloutwait.Poll` is Wait and observe.
pub mod Target
pub mod Poll
pub mod Parse
pub mod Ends
pub mod Paced
mod Tests
