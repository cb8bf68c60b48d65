-- ===== src/Controller/TaskQueue.antt =====
-- controller/internal/controller/taskqueue.go: the dispatch loop and the quota governor.
pub mod State
pub mod Pass
pub mod Reconcile
pub mod Frame
pub mod Slots
pub mod Ready
pub mod Stops
pub mod Halts
pub mod Order
pub mod Fifo
mod Examples
