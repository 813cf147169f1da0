-- ===== src/Script.antt =====
-- src/script: the numbers of scripts and the stack machine.
pub mod Number
pub mod Numeric
pub mod MultiSig
pub mod Stack
pub mod Vm
pub mod Writer
pub mod Eval
mod Runs
