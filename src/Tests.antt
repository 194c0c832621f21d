-- ===== src/Tests.antt =====
-- Runs of the models at concrete data, and the theorems at inputs that meet their hypotheses.
mod AgentRuns
mod ToolRuns
mod ModelRuns
mod ScoreRuns
mod SessionRuns
mod TaskData
mod ScorerRuns
mod EnvironmentRuns
mod RuleRuns
mod RpcRuns
mod PackageRuns
mod ProviderRuns
mod RegistryRuns
mod DeclareRuns
mod DatasetRuns
mod NumberRuns
mod ComponentRuns
mod RunFiles
mod ExampleRuns
