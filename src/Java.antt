-- ===== src/Java.antt =====
-- The javalang syntax trees.
pub mod Syntax
