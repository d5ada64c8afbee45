-- ===== src/Disruptor.antt =====
-- src/disruptor/include/disruptor/: sequences, the two claim strategies and the poller of the ring
-- buffer. A sequence of the source starts at -1 and counts up; the model keeps the sequence `v` as
-- the number `v + 1` of events up to it, so a cursor is the number of the events that are claimed
-- and the events themselves are numbered from 0, as in the source. Sequences stay below 2 ^ 63.
pub mod Slots
pub mod Sequence
pub mod Single
pub mod Multi
pub mod Threads
pub mod Poller
mod Tests
