-- ===== src/Compiler/Sound.antt =====
-- compiler.c: that each action keeps the instructions sound. Every jump has its target among the
-- instructions, or behind the last one, and every local variable has a slot.
pub mod Invariant
pub mod Actions
pub mod Append
pub mod Emit
pub mod Scope
pub mod Locals
pub mod Handlers
pub mod Switch
pub mod Calls
pub mod Visit
pub mod Returning
pub mod Resolving
pub mod Function
pub mod Pending
