-- ===== src/Tests.antt =====
-- Runs of the theorems at concrete inputs.
mod AuthRuns
mod MachineRuns
mod ViewRuns
mod ApiRuns
mod CacheRuns
mod UploadRuns
mod SetupRuns
mod PageRuns
mod SessionRuns
mod SetupLifeRuns
mod HelperRuns
