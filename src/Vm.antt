-- ===== src/Vm.antt =====
-- vm.h and vm.c: the virtual machine.
pub mod Variable
pub mod Value
pub mod Binop
pub mod Ring
pub mod Event
pub mod Scheduler
pub mod Machine
pub mod Stack
pub mod Instructions
pub mod Messages
pub mod Execute
pub mod Step
