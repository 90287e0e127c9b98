-- ===== src/Tests.antt =====
-- Runs of the program on small inputs, at which the theorems are applied.
mod Fifo
mod Data
mod PipelineRuns
mod LaneRuns
mod TextRuns
mod RenderRuns
mod BenchRuns
mod ThreadRuns
mod ExampleRuns
mod CrewRuns
mod CacheRuns
mod OverlapRuns
