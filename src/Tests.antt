-- ===== src/Tests.antt =====
-- Runs on small inputs, and the theorems at concrete data.
mod Units
mod Tree
mod Registry
mod Passes
mod Commits
mod Purges
mod Citations
mod Claims
mod Stores
mod Watch
mod Layers
