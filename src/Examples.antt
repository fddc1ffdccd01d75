-- ===== src/Examples.antt =====
-- Runs of the definitions on concrete data.
pub mod QueueRuns
pub mod WorkerRuns
pub mod CampaignRuns
pub mod FlagRuns
pub mod RelayRuns
pub mod LlmRuns
pub mod AuthRuns
pub mod ToyJson
pub mod RuntimeConfigRuns
pub mod CatalogRuns
pub mod SuggestRuns
pub mod ConfigRuns
pub mod EnrichmentRuns
pub mod CohortRuns
