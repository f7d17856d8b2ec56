-- ===== src/Printer.antt =====
-- The pretty printer of specification files, composer/cvl/pretty_print.py.
pub mod Precedence
pub mod Types
pub mod Expression
pub mod Lines
pub mod Command
pub mod Block
pub mod Method
pub mod File
pub mod Emits
pub mod Appends
pub mod Layout
pub mod Grammar
pub mod Ambiguity
