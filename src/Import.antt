-- ===== src/Import.antt =====
-- lib/Import and include/DeepForge/Import: what the graph importer shares with the rest.
pub mod Status
pub mod DataTypes
pub mod OperationTags
pub mod Capability
pub mod Graph
pub mod Keys
