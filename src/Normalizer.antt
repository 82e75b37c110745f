-- ===== src/Normalizer.antt =====
-- crates/waf-normalizer: canonical forms of the request's parts, and the structural parsers.
pub mod Percent
pub mod Path
pub mod Query
pub mod Graphql
pub mod Grpc
pub mod Headers
pub mod Json
pub mod Derive
pub mod Request
pub mod Body
