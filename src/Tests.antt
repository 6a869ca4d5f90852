-- ===== src/Tests.antt =====
-- The theorems at concrete inputs, and runs of the code on them.
mod Lists
mod Trees
pub mod Tables
pub mod Traps
pub mod OneByte
mod Runs
pub mod Mains
mod Sessions
mod Files
mod Processes
mod Walks
mod Machines
mod Printers
