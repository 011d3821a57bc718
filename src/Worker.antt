-- ===== src/Worker.antt =====
-- app/worker: who runs the tasks that the interface takes in.
pub mod Queue
pub mod Runs
mod Examples
