-- ===== src/Tests.antt =====
-- Runs of the modelled code on concrete inputs, and the theorems at such inputs.
mod Memory
mod Tables
mod Lexing
mod Platform
mod Threads
mod Values
mod Compiling
mod Running
mod Parsing
mod Files
