-- ===== src/Sym.antt =====
-- sym.c: the symbol table, a hash table of binary search trees keyed by lower-case names.
-- A name is the list of its characters' codes, with the closing zero left out.
pub mod Name
pub mod Tree
pub mod Order
pub mod Hook
pub mod Delete
pub mod Table
pub mod Laws
pub mod Insert
pub mod Removal
pub mod Lookup
pub mod Fresh
mod Examples
