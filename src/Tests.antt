-- ===== src/Tests.antt =====
-- Test data, and every theorem applied to it.
mod Sample
mod Solver
mod Search
mod Format
mod Tables
mod Files
mod Threads
mod Enumerate
