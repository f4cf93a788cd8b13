-- ===== src/Examples.antt =====
-- Concrete runs of the operations, and the theorems applied to them.
pub mod JobRuns
pub mod SagaRuns
pub mod WorkflowRuns
pub mod AuthRuns
pub mod EventRuns
pub mod RequestRuns
pub mod PipelineRuns
pub mod CacheRuns
pub mod EnforceRuns
pub mod SqlRuns
pub mod WorkerRuns
pub mod FileRuns
pub mod ResumeRuns
pub mod MoneyRuns
pub mod LedgerRuns
pub mod BusRuns
pub mod IdempotencyRuns
pub mod CronRuns
