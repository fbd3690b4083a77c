-- ===== src/Compiler.antt =====
-- compiler.c: from the syntax tree of a function to the instructions that the virtual machine runs.
pub mod Syntax
pub mod Code
pub mod State
pub mod Emit
pub mod Scope
pub mod Locals
pub mod Handlers
pub mod Calls
pub mod Switch
pub mod Visit
pub mod Function
pub mod Sound
