-- ===== src/Elements.antt =====
-- crates/engine/src/handler.rs, handlers and elements: how a command becomes events and follow-up
-- commands.
pub mod Interface
pub mod Handle
pub mod Context
pub mod Settle
pub mod Expression
pub mod Tags
pub mod StateHandler
pub mod States
pub mod Activity
pub mod Thread
pub mod Execution
pub mod Task
pub mod Payloads
pub mod Reports
pub mod Flow
pub mod Dispatch
pub mod Keeps
