-- ===== src/Parallel.antt =====
-- internal/parallel/parallel.go: the bounded worker pool. Its goroutines interleave in any order: a run
-- is a sequence of steps, each of one worker.
pub mod Pool
pub mod Order
pub mod Ends
mod Tests
