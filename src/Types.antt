-- ===== src/Types.antt =====
-- crates/engine-types/src/types: the domain values of the engine. A JSON value of `serde_json` is
-- a parameter `V`, since the modelled code stores and moves values and never looks into one.
pub mod Meta
pub mod Error
pub mod Execution
pub mod Thread
pub mod Task
pub mod Activity
pub mod Flow
pub mod Event
pub mod Deadline
pub mod Command
