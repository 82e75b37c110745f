-- ===== src/Lib.antt =====
-- RustWaf: a web application firewall in front of an HTTP service.
--
-- A request passes the pipeline (crates/waf-pipeline) twice: `run_connection` before it is
-- normalized, and, if it is allowed, `run_inspection` or its gated form after. The normalizer
-- (crates/waf-normalizer) gives the canonical forms of path, query, cookies and body that the
-- detection modules (crates/waf-detection) judge; each returns a decision, which the pipeline turns
-- into points on the request's score or a verdict. crates/waf-core holds the types they share, the
-- configuration, and the resolution of the client's address behind trusted proxies.
--
-- Core/Decision, Core/Context and Core/Config are the types of crates/waf-core/src/lib.rs, a record
-- per struct and a data type per enum. Core/Config/Defaults has the `Default` values, and
-- Core/Config/Validate the checks of `Config::validate` in their order, a function per section.
-- Core/ClientIp is crates/waf-core/src/network/client_ip.rs: an address is the number it stands for,
-- and `IpAddr::from_str` an argument. `none` from `resolve` would be an index out of range.
--
-- Pipeline is crates/waf-pipeline/src/lib.rs. A module is a record with its phase, its `structural`
-- mark and `inspect`, which passes on the state `W` that modules share behind `&self`; a panic is an
-- outcome of `inspect`. `RequestContext` and `W` are passed through the loops, and the labelled break
-- is `unless_broken`. Addition to the score wraps at 2^32, as in a build without overflow checks.
-- Pipeline/Schedule, Audit, Modes, Phases, Faults, Gate and Overflow say what a run does.
--
-- Normalizer/Percent, Path and Query are crates/waf-normalizer/src/url.rs. Text is the list of its
-- UTF-8 bytes. NFKC and Unicode lowercasing are arguments, and so is `derive_variants`. The budget of the
-- decoding loop is its measure: the loop stops by itself when it is spent. Normalizer/Graphql and
-- Normalizer/Grpc are graphql.rs and grpc.rs beside it, and Normalizer/Headers the lists of header
-- names in its lib.rs. The loops of the first two run on fuel, a round for each byte and one to see
-- the end, and `none` would be fuel that ran out: a round reads at least a byte, which is why this
-- fuel is enough. A position in a buffer is the rest of the buffer.
--
-- Normalizer/Body is body.rs of the same crate: Body/Flatten, Form and Multipart are its three parsers.
-- The walk over the parts of a multipart body runs on fuel too, a round for each byte of the body and
-- one to see the end, and a round reads at least a byte. Normalizer/Json is the value of serde_json.
-- Normalizer/Request is `Normalizer::normalize`, which composes all of them over a request.
--
-- Detection/Smuggling, Detection/Grpc and Detection/Graphql are request_smuggling.rs, grpc.rs and
-- graphql.rs of crates/waf-detection/src. `serde_json::from_str` is an argument of
-- Normalizer/Graphql/Envelope, the envelope that the last of them unwraps.
--
-- Normalizer/Derive is the rest of url.rs: the variants of a value that only the inspection sees, made
-- from Base64, Entities and Strips in files below it. A loop over characters is one over bytes that
-- drops or copies each, and a number of bytes still to be dropped goes with it. `expand_from` runs on
-- fuel, the budget at its start: a round spends a unit, so the budget is fuel enough.
--
-- Detection/Crs is crates/waf-detection/src/crs: Ast the rules, Lexer the lines of a rule file, Parse
-- the rules and the loop over the directives, Transform, Target and Operator what a rule does to a
-- request, and Engine the module that runs the rules. The crate of regular expressions is a record of
-- its operations, and `none` from a parse, a transform or a run is a slice that panics.
--
-- Core/State is crates/waf-core/src/state.rs and Detection/RateLimit rate_limit.rs beside the other
-- modules: the token buckets, with f64 as a record of operations and an instant as a number of
-- nanoseconds, read from the clock by the caller.
--
-- Common has what they share: Boolean tests on native numbers, lists and slices, decimal numbers,
-- the string functions and the UTF-8 checks of Rust's standard library, and lemmas on bit masks.
-- Tests has runs at fixed inputs.
--
-- Not modelled: logging; TOML, TLS, HTTP and the other I/O of crates/waf-proxy; the rule tables of
-- regular expressions in crates/waf-detection; the WASM runtime; the mutex and the clocks of the rate
-- limiter; the corpus runner, which is no part of the request's path.
pub mod Common
pub mod Core
pub mod Pipeline
pub mod Normalizer
pub mod Detection
pub mod Tests
