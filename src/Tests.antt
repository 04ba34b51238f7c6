-- ===== src/Tests.antt =====
-- Runs of the models on concrete inputs, and the theorems at concrete inputs.
mod Coordination
mod Cluster
mod Elections
mod Puzzles
mod Answers
mod Dancing
mod Programs
mod Threads
