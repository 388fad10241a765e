-- ===== src/Tests.antt =====
-- Runs of the models on concrete inputs, and the instances of the main theorems.
pub mod Samples
mod Arithmetic
mod Jobs
mod Fds
mod Params
mod Variables
mod Aliases
mod Frames
