-- ===== src/Graph.antt =====
-- app/graph: the state machine that runs a task.
pub mod Plan
pub mod State
pub mod Run
pub mod Prompts
pub mod Context
pub mod Classify
pub mod Critic
pub mod PlanText
pub mod Planner
pub mod Routes
pub mod React
pub mod Retrying
pub mod Engine
pub mod Calls
pub mod Executor
pub mod Finisher
pub mod Fixtures
mod Examples
