-- ===== src/Printer/Layout.antt =====
-- A reference for composer/cvl/pretty_print.py: the lines of commands and of blocks as a pure
-- function, without a line builder. A body is its lines with two more spaces before each.
pub mod Command
pub mod Parts
pub mod Block
pub mod Refines
pub mod Heads
pub mod Filters
pub mod Starts
pub mod RefinesMethod
pub mod RefinesBlock
pub mod Whole
