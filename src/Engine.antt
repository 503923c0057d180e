-- ===== src/Engine.antt =====
-- internal/engine: validation, SQL generation and the assembly of the response.
pub mod Sql
pub mod Codec
pub mod Validate
pub mod Order
pub mod Filter
pub mod Projection
pub mod Root
pub mod Transitive
pub mod Relational
pub mod Refs
pub mod Relations
pub mod Tree
pub mod Execution
pub mod Execute
