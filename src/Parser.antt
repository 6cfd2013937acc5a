-- ===== src/Parser.antt =====
-- The parts of crates/vidcull-parser that are modelled.
pub mod Error
pub mod Ebsp
pub mod BitReader
pub mod Nal
pub mod Permits
pub mod FanOut
pub mod Params
