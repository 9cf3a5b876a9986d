-- ===== src/Symbols.antt =====
-- The symbol table of a file: worker/app/graphs/service/symbol_table_builder/java.py.
pub mod Table
pub mod Build
pub mod Listed
pub mod Numbered
pub mod Complete
mod Samples
