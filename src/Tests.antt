-- ===== src/Tests.antt =====
-- Runs of the modelled code at concrete inputs, and the theorems applied to such inputs.
mod CacheRuns
mod GuardRuns
mod RouterRuns
mod SseRuns
mod EmitterRuns
mod HeaderRuns
mod ErrorRuns
mod SocketRuns
mod PolicyRuns
mod SchemaRuns
mod MessageRuns
mod HistoryRuns
mod PipelineRuns
mod PrefillRuns
mod RetryRuns
