-- ===== src/Tests.antt =====
-- Runs of the theorems on concrete queries, tables and events.
pub mod Database
pub mod Queries
pub mod Assembly
pub mod Execution
pub mod Relational
pub mod Paging
pub mod References
pub mod Clusters
pub mod Events
pub mod Discovery
pub mod Controller
pub mod Creation
pub mod Identities
