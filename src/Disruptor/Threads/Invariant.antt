-- ===== src/Disruptor/Threads/Invariant.antt =====
-- Which events each publisher owns, and what that says of the flags and of the dependents: true at
-- the start and kept by every step.
pub mod Defs
mod Moves
mod Claims
pub mod Steps
