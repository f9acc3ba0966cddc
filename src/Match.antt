-- ===== src/Match.antt =====
-- match.c: simple pattern matching. A string is the list of its bytes.
pub mod Sets
pub mod Default
pub mod Matcher
pub mod Pattern
pub mod Reading
pub mod Rounds
pub mod Meaning
pub mod Agreement
pub mod Correct
pub mod Modify
pub mod Members
pub mod Asked
pub mod Modified
pub mod Count
pub mod Format
pub mod Expansion
pub mod Words
pub mod Fitting
pub mod Sizing
mod Examples
