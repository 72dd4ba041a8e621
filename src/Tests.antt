-- ===== src/Tests.antt =====
-- The components at concrete inputs.
mod Registry
mod Planner
mod Observation
mod Controller
mod Control
mod Supervisor
mod Driver
mod Ensure
mod Executor
mod Endpoint
mod Unpark
mod Ownership
