-- ===== src/Elements/States.antt =====
-- crates/engine/src/elements/states: what several types of state do alike, when they complete, are
-- routed, and end. A `debug_assert!` evaluates its condition only in a build with debug assertions, and
-- these conditions hold the calls that mark the row.
pub mod Finish
pub mod Simple
pub mod Choice
pub mod Container
pub mod Converge
pub mod Parallel
pub mod Map
pub mod Spawning
pub mod Task
