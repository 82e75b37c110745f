-- ===== src/Tests.antt =====
-- Runs at fixed inputs: what the program's own unit tests say, and an instance of each result.
mod Requests
mod Network
mod Verdicts
mod Parsers
mod Structural
mod Operations
mod Bodies
mod Normalizing
mod Limits
mod Derived
mod Crs
mod Engine
