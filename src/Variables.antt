-- ===== src/Variables.antt =====
-- memory.c: the variables of a running program. A variable is the address of its record, 0 is NULL.
-- A BYTE, and a `long` that is the value of a variable, is a number here. Objects, Create, Release,
-- Mortal, Copy, Arrays, References and CopyArray have the operations, the others the proofs.
pub mod Objects
pub mod Create
pub mod Release
pub mod Mortal
pub mod Copy
pub mod Arrays
pub mod References
pub mod CopyArray
pub mod Lists
pub mod MortalList
pub mod Released
pub mod Reuse
pub mod Registered
pub mod Strings
pub mod Duplicate
pub mod Moved
pub mod Redim
pub mod Referred
mod Examples
