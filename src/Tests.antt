-- ===== src/Tests.antt =====
-- Runs at concrete inputs, and each property at an input that meets its hypotheses.
pub mod Samples
mod ExecutionTests
mod StoreTests
mod PolicyTests
mod PipelineTests
mod ServerTests
mod RulesTests
mod AuthTests
mod ApprovalTests
pub mod Utf8
mod ScheduleTests
mod SchedulerTests
mod ServerScheduleTests
mod ConfigTests
mod CoordinatorTests
mod StellarTests
