-- ===== src/Detection/Crs.antt =====
-- crates/waf-detection/src/crs: the import of ModSecurity rules, and the module that runs them.
pub mod Ast
pub mod Lexer
pub mod Parse
pub mod Transform
pub mod Target
pub mod Operator
pub mod Engine
