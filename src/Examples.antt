-- ===== src/Examples.antt =====
-- Concrete instruments, voices and files on which the theorems are applied.
mod Regions
mod Voices
mod Signals
mod Files
mod Synths
mod Rendering
mod Vectors
mod Memory
