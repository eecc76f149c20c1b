-- ===== src/OperationService.antt =====
-- internal/operationsvc: the preflight of operations.
pub mod Checks
pub mod Planner
pub mod Executor
pub mod Tests
