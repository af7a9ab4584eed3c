-- ===== src/Tests.antt =====
-- Runs of the definitions at concrete inputs, and the theorems applied to such inputs.
mod Meta
mod FileType
mod Walk
mod Pipeline
mod Args
mod Unix
mod Limiter
mod Whole
mod Threads
mod Run
mod Fallback
