-- ===== src/Detection.antt =====
-- crates/waf-detection: the structural modules, which judge the framing and the shape of a request.
pub mod Smuggling
pub mod Grpc
pub mod Graphql
pub mod RateLimit
pub mod Crs
